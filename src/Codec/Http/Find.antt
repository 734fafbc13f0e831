-- ===== src/Codec/Http/Find.antt =====
-- `HttpHeader`: lookups after `add`, whatever the case of the key.
use uvio.Prelude.{
  ℕ, ◌≡◌, refl, ap, ◌∙◌, Bool, true, false, List, [], ◌∷◌, ◌++◌, Option, none, some, if◌then◌else◌,
  append-nil,
}
use uvio.Codec.Http.{case_insensitive_equal, HttpHeader, add, values, find_all}

values-append :
    (key : List ℕ) (xs ys : HttpHeader) → values key (xs ++ ys) ≡ values key xs ++ values key ys
unfolding values
values-append key [] ys = refl
values-append key ((k, v) ∷ xs) ys =
    elim (case_insensitive_equal k key)
      as (λ b.
        (if b then v ∷ values key (xs ++ ys) else values key (xs ++ ys))
        ≡ (if b then v ∷ values key xs else values key xs) ++ values key ys) [
          | true ↦ ap (λ t. v ∷ t) (values-append key xs ys)
          | false ↦ values-append key xs ys
        ]

values-add :
    (k v key : List ℕ) (header : HttpHeader) (b : Bool)
    → case_insensitive_equal k key ≡ b
    → values key (add k v header) ≡ values key header ++ (if b then v ∷ [] else [])
unfolding add values
values-add k v key header b e = values-append key header ((k, v) ∷ []) ∙ rw e refl

abbrev given : List (List ℕ) → Option (List (List ℕ))
given [] = none
given (v ∷ vs) = some (v ∷ vs)

given_snoc : (vs : List (List ℕ)) (v : List ℕ) → given (vs ++ v ∷ []) ≡ some (vs ++ v ∷ [])
given_snoc [] v = refl
given_snoc (w ∷ vs) v = refl

-- After `add`, `find_all` of a key that is equal but for its case gives the values that it gave
-- before and then the added one, and of any other key what it gave before.
pub find_all-add :
    (k v key : List ℕ) (header : HttpHeader) (b : Bool)
    → case_insensitive_equal k key ≡ b
    → find_all key (add k v header)
      ≡ (if b then some (values key header ++ v ∷ []) else find_all key header)
unfolding find_all
find_all-add k v key header true e =
    ap given (values-add k v key header true e) ∙ given_snoc (values key header) v
find_all-add k v key header false e =
    ap given (values-add k v key header false e ∙ append-nil (values key header))
