-- ===== src/Codec/Http/Line.antt =====
-- The first line of a request or a response, parsed.
use uvio.Prelude.{
  ℕ, ◌+◌, ◌-◌, ◌≡◌, refl, sym, ap, ◌∙◌, Bool, true, false, not, ◌&&◌, ◌||◌, List, [], ◌∷◌, ◌++◌,
  append_assoc, length, All, ◌==◌, arith, length-append, take-length_append, drop-length_append,
}
use uvio.Common.Result.{ok}
use uvio.Codec.Http.{substr, char_at, is_blank, is_line_end, rounds_until, skip_until, parse_line}

-- No character of `xs` stops the loop.
abbrev pub Passes : (ℕ → Bool) → List ℕ → Type 0
Passes stop xs = All (λ x. stop x ≡ false) xs

pub rounds_until_lem :
    (stop : ℕ → Bool) (xs : List ℕ) (c : ℕ) (more : List ℕ)
    → Passes stop xs
    → stop c ≡ true
    → rounds_until stop (xs ++ c ∷ more) ≡ length xs
unfolding rounds_until
rounds_until_lem stop [] c more p h = rw h refl
rounds_until_lem stop (x ∷ xs) c more (q, p) h = rw (q, rounds_until_lem stop xs c more p h) refl

pub rounds_until_all :
    (stop : ℕ → Bool) (xs : List ℕ) → Passes stop xs → rounds_until stop xs ≡ length xs
unfolding rounds_until
rounds_until_all stop [] p = refl
rounds_until_all stop (x ∷ xs) (q, p) = rw (q, rounds_until_all stop xs p) refl

-- The loop from the end of `pre` over `xs` to the character `c`.
pub skip_until_lem :
    (stop : ℕ → Bool) (pre xs : List ℕ) (c : ℕ) (more : List ℕ)
    → Passes stop xs
    → stop c ≡ true
    → skip_until stop (pre ++ (xs ++ c ∷ more)) (length pre) ≡ length pre + length xs
unfolding skip_until
skip_until_lem stop pre xs c more p h =
    rw (drop-length_append pre (xs ++ c ∷ more), rounds_until_lem stop xs c more p h) refl

pub char_at-append :
    (pre : List ℕ) (c : ℕ) (more : List ℕ) → char_at (pre ++ c ∷ more) (length pre) ≡ c
char_at-append [] c more = refl
char_at-append (x ∷ pre) c more = char_at-append pre c more

pub substr-append :
    (pre xs more : List ℕ) → substr (pre ++ (xs ++ more)) (length pre) (length xs) ≡ xs
substr-append pre xs more = rw (drop-length_append pre (xs ++ more)) (take-length_append xs more)

-- A field of a line: the characters `xs` behind `pre` and before `c`, which ends them.
pub field_lem :
    (stop : ℕ → Bool) (line pre xs : List ℕ) (c : ℕ) (more : List ℕ)
    → line ≡ pre ++ (xs ++ c ∷ more)
    → Passes stop xs
    → stop c ≡ true
    → (skip_until stop line (length pre) ≡ length pre + length xs)
      × (char_at line (length pre + length xs) ≡ c)
      × (substr line (length pre) (length xs) ≡ xs)
field_lem stop line pre xs c more e p h =
    let at : char_at line (length pre + length xs) ≡ c =
      ap (λ t. char_at t (length pre + length xs)) (e ∙ sym (append_assoc pre xs (c ∷ more)))
      ∙ ap (char_at ((pre ++ xs) ++ c ∷ more)) (sym (length-append pre xs))
      ∙ char_at-append (pre ++ xs) c more in
    (
      ap (λ t. skip_until stop t (length pre)) e ∙ skip_until_lem stop pre xs c more p h,
      at,
      ap (λ t. substr t (length pre) (length xs)) e ∙ substr-append pre xs (c ∷ more),
    )

de_morgan : (a b : Bool) → (a || b) ≡ true → (not a && not b) ≡ false
de_morgan true b h = refl
de_morgan false true h = refl
de_morgan false false h = sym h

-- The parts, by the positions at which the three loops stop.
parse_line_at :
    (line m u v : List ℕ) (c e1 e2 e3 : ℕ)
    → skip_until is_blank line 0 ≡ e1
    → skip_until is_blank line (e1 + 1) ≡ e2
    → skip_until is_line_end line (e2 + 1) ≡ e3
    → char_at line e1 ≡ 0x20
    → char_at line e2 ≡ 0x20
    → char_at line e3 ≡ c
    → is_line_end c ≡ true
    → substr line 0 e1 ≡ m
    → substr line (e1 + 1) (e2 - (e1 + 1)) ≡ u
    → substr line (e2 + 1) (e3 - (e2 + 1)) ≡ v
    → parse_line line ≡ ok (m, u, v)
unfolding parse_line
parse_line_at line m u v c e1 e2 e3 s1 s2 s3 c1 c2 c3 h f1 f2 f3 =
    rw s1
      (rw s2 (rw s3 (rw (c1, c2, c3, de_morgan (c == 0x0D) (c == 0x0A) h) (rw (f1, f2, f3) refl))))

-- What `parse_line` takes apart: three fields, of which the first two end at a blank and hold none,
-- and the third ends at a carriage return or a line feed and holds neither.
pub parse_line_lem :
    (method uri version : List ℕ) (c : ℕ) (more : List ℕ)
    → Passes is_blank method
    → Passes is_blank uri
    → Passes is_line_end version
    → is_line_end c ≡ true
    → parse_line (method ++ 0x20 ∷ (uri ++ 0x20 ∷ (version ++ c ∷ more)))
      ≡ ok (method, uri, version)
parse_line_lem m u v c more pm pu pv h =
    let line = m ++ 0x20 ∷ (u ++ 0x20 ∷ (v ++ c ∷ more)) in
    let pre1 = m ++ 0x20 ∷ [] in
    let pre2 = pre1 ++ (u ++ 0x20 ∷ []) in
    let cut1 : line ≡ pre1 ++ (u ++ 0x20 ∷ (v ++ c ∷ more)) = sym (append_assoc m (0x20 ∷ []) _) in
    let cut2 : line ≡ pre2 ++ (v ++ c ∷ more) =
      cut1
      ∙ ap (λ t. pre1 ++ t) (sym (append_assoc u (0x20 ∷ []) _))
      ∙ sym (append_assoc pre1 _ _) in
    let (s1, c1, f1) =
      field_lem is_blank line [] m 0x20 (u ++ 0x20 ∷ (v ++ c ∷ more)) refl pm refl in
    let (s2, c2, f2) = field_lem is_blank line pre1 u 0x20 (v ++ c ∷ more) cut1 pu refl in
    let (s3, c3, f3) = field_lem is_line_end line pre2 v c more cut2 pv h in
    let e1 = length m in
    let e2 = length m + 1 + length u in
    let e3 = length m + 1 + length u + 1 + length v in
    let n1 : 0 + length m ≡ e1 = omega arith in
    let n2 : length pre1 ≡ e1 + 1 = length-append m (0x20 ∷ []) in
    let n3 : length pre2 ≡ e2 + 1 =
      omega (arith, length-append pre1 (u ++ 0x20 ∷ []), length-append u (0x20 ∷ []), n2) in
    let w2 : e2 - (e1 + 1) ≡ length u = omega arith in
    let w3 : e3 - (e2 + 1) ≡ length v = omega arith in
    parse_line_at line m u v c e1 e2 e3 (s1 ∙ n1) (rw (sym n2) s2) (rw (sym n3) s3)
      (ap (char_at line) (sym n1) ∙ c1) (rw (sym n2) c2) (rw (sym n3) c3) h f1 (rw (w2, sym n2) f2)
      (rw (w3, sym n3) f3)
