-- ===== src/Prelude/Lists.antt =====
-- Lists measured and cut by native numbers, under the library's names, and a predicate on the
-- members of a list.
use Prim.Native.Nat.{ℕ, zero, suc, ◌+◌, ◌-◌, ◌≤◌, min}
use mathlib.Core.Path.{◌≡◌, refl, ap, ap₂, sym, ◌∙◌}
use mathlib.Core.Logic.{◌≢◌, ◌⊎◌, inl, inr}
use mathlib.Core.List.{List, [], ◌∷◌, ◌++◌, cons-eq-cons, nil≢cons}
use mathlib.Core.Option.{Option, none, some}
use native.Mathlib.Omega.{arith}

le_cases : (a b : ℕ) → (a ≤ b) ⊎ (b ≤ a)
le_cases a b = grind arith

module _ {ℓ} {A : Type ℓ} where
  abbrev pub length : List A → ℕ
  length [] = 0
  length (x ∷ xs) = suc (length xs)

  abbrev pub get_elem? : List A → ℕ → Option A
  get_elem? [] i = none
  get_elem? (x ∷ xs) zero = some x
  get_elem? (x ∷ xs) (suc i) = get_elem? xs i

  abbrev pub get_or : List A → ℕ → A → A
  get_or [] i d = d
  get_or (x ∷ xs) zero d = x
  get_or (x ∷ xs) (suc i) d = get_or xs i d

  abbrev pub take : ℕ → List A → List A
  take zero xs = []
  take (suc n) [] = []
  take (suc n) (x ∷ xs) = x ∷ take n xs

  abbrev pub drop : ℕ → List A → List A
  drop zero xs = xs
  drop (suc n) [] = []
  drop (suc n) (x ∷ xs) = drop n xs

  abbrev pub replicate : ℕ → A → List A
  replicate zero a = []
  replicate (suc n) a = a ∷ replicate n a

  -- `xs` written over `ys` from index `i` on; what lies outside `ys` is lost.
  abbrev pub overwrite : ℕ → List A → List A → List A
  overwrite i xs [] = []
  overwrite (suc i) xs (y ∷ ys) = y ∷ overwrite i xs ys
  overwrite zero [] (y ∷ ys) = y ∷ ys
  overwrite zero (x ∷ xs) (y ∷ ys) = x ∷ overwrite zero xs ys

  abbrev pub All {κ} : (A → Type κ) → List A → Type κ
  All P [] = Unit {κ}
  All P (x ∷ xs) = P x × All P xs

module _ {ℓ} {A : Type ℓ} where
  pub length-append : (xs ys : List A) → length (xs ++ ys) ≡ length xs + length ys
  length-append [] ys = omega arith
  length-append (x ∷ xs) ys = omega (arith, length-append xs ys)

  pub take-append-drop : (n : ℕ) (xs : List A) → take n xs ++ drop n xs ≡ xs
  take-append-drop zero xs = refl
  take-append-drop (suc n) [] = refl
  take-append-drop (suc n) (x ∷ xs) = ap (λ r. x ∷ r) (take-append-drop n xs)

  pub length-take : (n : ℕ) (xs : List A) → length (take n xs) ≡ min n (length xs)
  length-take zero xs = omega arith
  length-take (suc n) [] = omega arith
  length-take (suc n) (x ∷ xs) = omega (arith, length-take n xs)

  pub length-drop : (n : ℕ) (xs : List A) → length (drop n xs) ≡ length xs - n
  length-drop zero xs = omega arith
  length-drop (suc n) [] = omega arith
  length-drop (suc n) (x ∷ xs) = omega (arith, length-drop n xs)

  pub length-replicate : (n : ℕ) (a : A) → length (replicate n a) ≡ n
  length-replicate zero a = refl
  length-replicate (suc n) a = ap suc (length-replicate n a)

  pub length-overwrite : (i : ℕ) (xs ys : List A) → length (overwrite i xs ys) ≡ length ys
  length-overwrite zero xs [] = refl
  length-overwrite (suc i) xs [] = refl
  length-overwrite (suc i) xs (y ∷ ys) = ap suc (length-overwrite i xs ys)
  length-overwrite zero [] (y ∷ ys) = refl
  length-overwrite zero (x ∷ xs) (y ∷ ys) = ap suc (length-overwrite zero xs ys)

  -- Cutting at the seam of an append, and beyond the end.
  pub take-append_left : (n : ℕ) (xs ys : List A) → n ≤ length xs → take n (xs ++ ys) ≡ take n xs
  take-append_left zero xs ys h = refl
  take-append_left (suc n) [] ys h = absurd (omega arith)
  take-append_left (suc n) (x ∷ xs) ys h = ap (λ r. x ∷ r) (take-append_left n xs ys (omega arith))

  pub drop-append_left :
      (n : ℕ) (xs ys : List A) → n ≤ length xs → drop n (xs ++ ys) ≡ drop n xs ++ ys
  drop-append_left zero xs ys h = refl
  drop-append_left (suc n) [] ys h = absurd (omega arith)
  drop-append_left (suc n) (x ∷ xs) ys h = drop-append_left n xs ys (omega arith)

  pub take_all : (n : ℕ) (xs : List A) → length xs ≤ n → take n xs ≡ xs
  take_all zero [] h = refl
  take_all zero (x ∷ xs) h = absurd (omega arith)
  take_all (suc n) [] h = refl
  take_all (suc n) (x ∷ xs) h = ap (λ r. x ∷ r) (take_all n xs (omega arith))

  pub drop_all : (n : ℕ) (xs : List A) → length xs ≤ n → drop n xs ≡ []
  drop_all zero [] h = refl
  drop_all zero (x ∷ xs) h = absurd (omega arith)
  drop_all (suc n) [] h = refl
  drop_all (suc n) (x ∷ xs) h = drop_all n xs (omega arith)

  pub take-min : (n : ℕ) (xs : List A) → take (min n (length xs)) xs ≡ take n xs
  take-min n xs = elim (le_cases n (length xs)) [
    | inl h ↦ ap (λ k. take k xs) (omega arith)
    | inr h ↦
        ap (λ k. take k xs) (let e : min n (length xs) ≡ length xs = omega arith in e)
        ∙ take_all (length xs) xs (omega arith)
        ∙ sym (take_all n xs h)
  ]

  pub take-length-take : (n : ℕ) (xs : List A) → take (length (take n xs)) xs ≡ take n xs
  take-length-take zero xs = refl
  take-length-take (suc n) [] = refl
  take-length-take (suc n) (x ∷ xs) = ap (λ r. x ∷ r) (take-length-take n xs)

  -- Two ways to cut one list at one length are the same.
  pub append_cancel :
      (xs ys us vs : List A) → xs ++ us ≡ ys ++ vs → length xs ≡ length ys → (xs ≡ ys) × (us ≡ vs)
  append_cancel [] [] us vs e h = (refl, e)
  append_cancel [] (y ∷ ys) us vs e h = absurd (omega arith)
  append_cancel (x ∷ xs) [] us vs e h = absurd (omega arith)
  append_cancel (x ∷ xs) (y ∷ ys) us vs e h =
      let parts = cons-eq-cons.0 e in
      let (same, rest) = append_cancel xs ys us vs parts.1 (omega arith) in
      (ap₂ ◌∷◌ parts.0 same, rest)

  -- If the first of two cuts lies behind the second, what is between them can be named.
  pub append_split :
      (xs ys us vs : List A)
      → xs ++ us ≡ ys ++ vs
      → length ys ≤ length xs
      → (zs : List A) × (xs ≡ ys ++ zs) × (zs ++ us ≡ vs)
  append_split xs [] us vs e h = (xs, refl, e)
  append_split [] (y ∷ ys) us vs e h = absurd (omega arith)
  append_split (x ∷ xs) (y ∷ ys) us vs e h =
      let parts = cons-eq-cons.0 e in
      let (zs, cut, after) = append_split xs ys us vs parts.1 (omega arith) in
      (zs, ap₂ ◌∷◌ parts.0 cut, after)

  pub nil_of_length : (xs : List A) → length xs ≡ 0 → xs ≡ []
  nil_of_length [] h = refl
  nil_of_length (x ∷ xs) h = absurd (omega arith)

  pub nil_or_not : (xs : List A) → (xs ≡ []) ⊎ (xs ≢ [])
  nil_or_not [] = inl refl
  nil_or_not (x ∷ xs) = inr (λ e. nil≢cons (sym e))

  pub length-cut : (n : ℕ) (xs : List A) → n ≤ length xs → length (take n xs) ≡ n
  length-cut n xs h = omega (arith, length-take n xs)

  pub take-length_append : (xs ys : List A) → take (length xs) (xs ++ ys) ≡ xs
  take-length_append [] ys = refl
  take-length_append (x ∷ xs) ys = ap (λ r. x ∷ r) (take-length_append xs ys)

  pub drop-length_append : (xs ys : List A) → drop (length xs) (xs ++ ys) ≡ ys
  drop-length_append [] ys = refl
  drop-length_append (x ∷ xs) ys = drop-length_append xs ys

  pub drop-nil : (n : ℕ) → ◌≡◌ {A = List A} (drop n []) []
  drop-nil zero = refl
  drop-nil (suc n) = refl

  pub take-nil : (n : ℕ) → ◌≡◌ {A = List A} (take n []) []
  take-nil zero = refl
  take-nil (suc n) = refl

-- The elements from index `i` up to index `j`, and the laws of cutting a list so.
module _ {ℓ} {A : Type ℓ} where
  abbrev pub slice : ℕ → ℕ → List A → List A
  slice zero j xs = take j xs
  slice (suc i) zero xs = []
  slice (suc i) (suc j) [] = []
  slice (suc i) (suc j) (x ∷ xs) = slice i j xs

  pub length-slice : (i j : ℕ) (xs : List A) → j ≤ length xs → length (slice i j xs) ≡ j - i
  length-slice zero j xs h = omega (arith, length-take j xs)
  length-slice (suc i) zero xs h = omega arith
  length-slice (suc i) (suc j) [] h = absurd (omega arith)
  length-slice (suc i) (suc j) (x ∷ xs) h = omega (arith, length-slice i j xs (omega arith))

  pub slice_self : (i : ℕ) (xs : List A) → slice i i xs ≡ []
  slice_self zero xs = refl
  slice_self (suc i) [] = refl
  slice_self (suc i) (x ∷ xs) = slice_self i xs

  take-slice : (m j : ℕ) (xs : List A) → m ≤ j → take j xs ≡ take m xs ++ slice m j xs
  take-slice zero j xs h = refl
  take-slice (suc m) zero xs h = absurd (omega arith)
  take-slice (suc m) (suc j) [] h = refl
  take-slice (suc m) (suc j) (x ∷ xs) h = ap (λ r. x ∷ r) (take-slice m j xs (omega arith))

  -- A slice is cut in two at any index inside it.
  pub slice_split :
      (i m j : ℕ) (xs : List A) → i ≤ m → m ≤ j → slice i j xs ≡ slice i m xs ++ slice m j xs
  slice_split zero m j xs h k = take-slice m j xs k
  slice_split (suc i) zero j xs h k = absurd (omega arith)
  slice_split (suc i) (suc m) zero xs h k = absurd (omega arith)
  slice_split (suc i) (suc m) (suc j) [] h k = refl
  slice_split (suc i) (suc m) (suc j) (x ∷ xs) h k =
      slice_split i m j xs (omega arith) (omega arith)

  take-overwrite :
      (i j : ℕ) (ys xs : List A)
      → j ≡ i + length ys
      → j ≤ length xs
      → take j (overwrite i ys xs) ≡ take i xs ++ ys
  take-overwrite zero zero [] xs e h = refl
  take-overwrite zero (suc j) [] xs e h = absurd (omega arith)
  take-overwrite zero zero (y ∷ ys) xs e h = absurd (omega arith)
  take-overwrite zero (suc j) (y ∷ ys) [] e h = absurd (omega arith)
  take-overwrite zero (suc j) (y ∷ ys) (x ∷ xs) e h =
      ap (λ r. y ∷ r) (take-overwrite zero j ys xs (omega arith) (omega arith))
  take-overwrite (suc i) zero ys xs e h = absurd (omega arith)
  take-overwrite (suc i) (suc j) ys [] e h = absurd (omega arith)
  take-overwrite (suc i) (suc j) ys (x ∷ xs) e h =
      ap (λ r. x ∷ r) (take-overwrite i j ys xs (omega arith) (omega arith))

  -- Writing at the end of a slice extends it by what is written.
  pub slice-overwrite :
      (i w j : ℕ) (ys xs : List A)
      → i ≤ w
      → j ≡ w + length ys
      → j ≤ length xs
      → slice i j (overwrite w ys xs) ≡ slice i w xs ++ ys
  slice-overwrite zero w j ys xs l e h = take-overwrite w j ys xs e h
  slice-overwrite (suc i) zero j ys xs l e h = absurd (omega arith)
  slice-overwrite (suc i) (suc w) zero ys xs l e h = absurd (omega arith)
  slice-overwrite (suc i) (suc w) (suc j) ys [] l e h = absurd (omega arith)
  slice-overwrite (suc i) (suc w) (suc j) ys (x ∷ xs) l e h =
      slice-overwrite i w j ys xs (omega arith) (omega arith) (omega arith)

  pub overwrite_all : (ys xs : List A) → length ys ≡ length xs → overwrite 0 ys xs ≡ ys
  overwrite_all [] [] h = refl
  overwrite_all [] (x ∷ xs) h = absurd (omega arith)
  overwrite_all (y ∷ ys) [] h = absurd (omega arith)
  overwrite_all (y ∷ ys) (x ∷ xs) h = ap (λ r. y ∷ r) (overwrite_all ys xs (omega arith))
