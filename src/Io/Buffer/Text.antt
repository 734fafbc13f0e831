-- ===== src/Io/Buffer/Text.antt =====
-- The search for a flag, in a buffer whose readable bytes hold no NUL and are followed by one.

use uvio.Prelude.{
  ℕ, zero, suc, ◌+◌, ◌≤◌, ◌≡◌, refl, sym, ap, ◌∙◌, true, false, Bool-cases, inl, inr, Bool, ◌&&◌,
  Option-cases, take-append-drop, none, some, List, [], ◌∷◌, ◌++◌, length, take, drop, slice, All,
  ◌==◌, arith, take-append_left,
}
use uvio.Common.Result.{done}
use uvio.Io.Buffer.{StreamBuffer, r_slice, c_string, starts_with, find, find_flag_and_return_slice}
use uvio.Io.Buffer.Valid.{IsValid}

abbrev pub NoNul : List ℕ → Type 0
NoNul xs = All (λ x. (x == 0) ≡ false) xs

pub NoNul-suffix : (xs ys : List ℕ) → NoNul (xs ++ ys) → NoNul ys
NoNul-suffix [] ys h = h
NoNul-suffix (x ∷ xs) ys (_, h) = NoNul-suffix xs ys h

-- The text in front of a NUL.
pub c_string-text : (xs ys : List ℕ) → NoNul xs → c_string (xs ++ 0 ∷ ys) ≡ some xs
unfolding c_string
c_string-text [] ys u = refl
c_string-text (x ∷ xs) ys (n, more) = rw (n, c_string-text xs ys more) refl

drop-slice : (i j : ℕ) (xs : List ℕ) → i ≤ j → drop i xs ≡ slice i j xs ++ drop j xs
drop-slice zero j xs h = sym (take-append-drop j xs)
drop-slice (suc i) zero xs h = absurd (omega arith)
drop-slice (suc i) (suc j) [] h = refl
drop-slice (suc i) (suc j) (x ∷ xs) h = drop-slice i j xs (omega arith)

and-right : (a b : Bool) → (a && b) ≡ true → b ≡ true
and-right true b h = h
and-right false b h = cc

found_at : (n m : ℕ) → some m ≡ some n → n ≡ m
found_at n m e = cc

not_found : (n : ℕ) → none ≡ some n → ⊥
not_found n e = cc

starts_with-fits : (flag hay : List ℕ) → starts_with flag hay ≡ true → length flag ≤ length hay
unfolding starts_with
starts_with-fits [] hay h = omega arith
starts_with-fits (x ∷ flag) [] h = cc
starts_with-fits (x ∷ flag) (y ∷ hay) h =
    let rest = starts_with-fits flag hay (and-right (x == y) (starts_with flag hay) h) in
    omega (arith, rest)

-- A flag that is found lies within the text.
pub find-fits : (flag hay : List ℕ) (n : ℕ) → find flag hay ≡ some n → n + length flag ≤ length hay
unfolding find
find-fits flag [] n e = elim (Bool-cases (starts_with flag [])) [
  | inl yes_here ↦
      let start = found_at n 0 (rw yes_here at e) in
      let fits = starts_with-fits flag [] yes_here in omega (arith, start, fits)
  | inr not_here ↦ absurd (not_found n (rw not_here at e))
]
find-fits flag (x ∷ hay) n e = elim (Bool-cases (starts_with flag (x ∷ hay))) [
  | inl yes_here ↦
      let start = found_at n 0 (rw yes_here at e) in
      let fits = starts_with-fits flag (x ∷ hay) yes_here in omega (arith, start, fits)
  | inr not_here ↦ elim (Option-cases (find flag hay)) [
    | inl nowhere ↦ absurd (not_found n (rw (not_here, nowhere) at e))
    | inr (m, there) ↦
        let start = found_at n (suc m) (rw (not_here, there) at e) in
        let fits = find-fits flag hay m there in omega (arith, start, fits)
  ]
]

-- The readable bytes are a text, and a NUL follows them.
pub record Ended (b : StreamBuffer) : Type 0 where
  pub behind : List ℕ
  pub nul : drop b.w_pos b.buf ≡ 0 ∷ behind
  pub no_nul : NoNul (r_slice b)

find_flag_at :
    (flag view : List ℕ) (n : ℕ) (b : StreamBuffer)
    → c_string (drop b.r_pos b.buf) ≡ some view
    → find flag view ≡ some n
    → find_flag_and_return_slice flag b ≡ done (take (n + length flag) (drop b.r_pos b.buf))
unfolding find_flag_and_return_slice
find_flag_at flag view n b seen e = rw (seen, find_flag_and_return_slice) (rw e refl)

pub find_flag_lem :
    (flag : List ℕ) (n : ℕ) (b : StreamBuffer)
    → IsValid b
    → Ended b
    → find flag (r_slice b) ≡ some n
    → find_flag_and_return_slice flag b ≡ done (take (n + length flag) (r_slice b))
find_flag_lem flag n b v text e =
    let cut : drop b.r_pos b.buf ≡ r_slice b ++ 0 ∷ text.behind =
      drop-slice b.r_pos b.w_pos b.buf v.ordered ∙ ap (λ t. r_slice b ++ t) text.nul in
    let view : c_string (drop b.r_pos b.buf) ≡ some (r_slice b) =
      ap c_string cut ∙ c_string-text (r_slice b) text.behind text.no_nul in
    let same : take (n + length flag) (drop b.r_pos b.buf) ≡ take (n + length flag) (r_slice b) =
      ap (take (n + length flag)) cut
      ∙ take-append_left (n + length flag) (r_slice b) (0 ∷ text.behind)
          (find-fits flag (r_slice b) n e) in
    find_flag_at flag (r_slice b) n b view e ∙ ap done same
