-- ===== src/Codec/Http/Flag.antt =====
-- Where the line ends that `HttpCodec::decode` looks for stand in what `encode` writes.
use mathlib.Core.Option
use uvio.Prelude.{
  ℕ, suc, ◌+◌, ◌≡◌, refl, sym, ap, ◌∙◌, Bool, true, false, ◌||◌, List, [], ◌∷◌, ◌++◌, append_assoc,
  some, length, All, ◌==◌, arith, length-append,
}
use uvio.Io.Buffer.{starts_with, find}
use uvio.Codec.Http.{is_line_end, HttpHeader}
use uvio.Codec.Http.Line.{Passes}
use uvio.Codec.Http.Encode.{line_break, headers_text}
use uvio.Codec.Http.Headers.{IsPlain, first_of, All-append}

-- No carriage return.
abbrev pub OneLine : List ℕ → Type 0
OneLine xs = Passes (λ c. 0x0D == c) xs

or-false : (a b : Bool) → (a || b) ≡ false → a ≡ false
or-false true b h = h
or-false false b h = refl

pub equal_comm : (a b : ℕ) → (a == b) ≡ false → (b == a) ≡ false
equal_comm a b h = grind arith

pub no_return : (c : ℕ) → is_line_end c ≡ false → (0x0D == c) ≡ false
no_return c h = equal_comm c 0x0D (or-false (c == 0x0D) (c == 0x0A) h)

pub OneLine-of : (xs : List ℕ) → Passes is_line_end xs → OneLine xs
OneLine-of [] p = tt
OneLine-of (x ∷ xs) (h, p) = (no_return x h, OneLine-of xs p)

-- A flag that begins with a carriage return is not found before one.
module _ (flag : List ℕ) where
  find-skip :
      (xs hay : List ℕ) (n : ℕ)
      → OneLine xs
      → find (0x0D ∷ flag) hay ≡ some n
      → find (0x0D ∷ flag) (xs ++ hay) ≡ some (length xs + n)
  unfolding find starts_with
  find-skip [] hay n p e = e ∙ ap some (omega arith)
  find-skip (x ∷ xs) hay n (h, p) e = rw (h, find-skip xs hay n p e) (ap some (omega arith))

find_here : (more : List ℕ) → find line_break (line_break ++ more) ≡ some 0
unfolding find starts_with
find_here more = refl

pub find-line_break :
    (xs more : List ℕ)
    → OneLine xs
    → find line_break (xs ++ (line_break ++ more)) ≡ some (length xs)
find-line_break xs more p =
    find-skip (0x0A ∷ []) xs (line_break ++ more) 0 p (find_here more) ∙ ap some (omega arith)

find_end :
    (more : List ℕ) → find (line_break ++ line_break) (line_break ++ (line_break ++ more)) ≡ some 0
unfolding find starts_with
find_end more = refl

find_next :
    (c : ℕ) (hay : List ℕ) (n : ℕ)
    → (0x0D == c) ≡ false
    → find (line_break ++ line_break) (c ∷ hay) ≡ some n
    → find (line_break ++ line_break) (line_break ++ c ∷ hay) ≡ some (2 + n)
unfolding find starts_with
find_next c hay n h e =
    let e' = rw h at e in
    rw h (ap (λ o. Option.map suc (Option.map suc o)) e' ∙ ap some (omega arith))

find_next_of :
    (text : List ℕ) (c : ℕ) (hay : List ℕ) (n : ℕ)
    → text ≡ c ∷ hay
    → (0x0D == c) ≡ false
    → find (line_break ++ line_break) text ≡ some n
    → find (line_break ++ line_break) (line_break ++ text) ≡ some (2 + n)
find_next_of text c hay n e h found =
    ap (λ t. find (line_break ++ line_break) (line_break ++ t)) e
    ∙ find_next c hay n h (sym (ap (find (line_break ++ line_break)) e) ∙ found)

-- The end of the headers, behind characters without a carriage return.
pub find-headers_text :
    (header : HttpHeader) (seg more : List ℕ)
    → All IsPlain header
    → OneLine seg
    → (n : ℕ) × (find
          (line_break ++ line_break)
          (seg ++ (line_break ++ (headers_text header ++ more)))
        ≡ some n)
      × (n + 4 ≡ length seg + 2 + length (headers_text header))
unfolding headers_text
find-headers_text [] seg more p h = (
  length seg,
  find-skip (0x0A ∷ line_break) seg (line_break ++ (line_break ++ more)) 0 h (find_end more)
      ∙ ap some (omega arith),
  omega arith,
)
find-headers_text ((k, v) ∷ header) seg more (q, p) h =
    let line = k ++ 0x3A ∷ 0x20 ∷ v in
    let one : OneLine line =
      OneLine-of line
        (All-append is_line_end k (0x3A ∷ 0x20 ∷ v) q.key_line (refl, (refl, q.value_line))) in
    let (c, cs, e, first) = first_of k q.key_trimmed q.key_line in
    let (n, found, size) = find-headers_text header line more p one in
    let text = headers_text ((k, v) ∷ header) ++ more in
    let cut : text ≡ line ++ (line_break ++ (headers_text header ++ more)) =
      append_assoc k (0x3A ∷ 0x20 ∷ (v ++ (line_break ++ headers_text header))) more
      ∙ ap (λ t. k ++ 0x3A ∷ 0x20 ∷ t) (append_assoc v (line_break ++ headers_text header) more)
      ∙ sym (append_assoc k (0x3A ∷ 0x20 ∷ v) (line_break ++ (headers_text header ++ more))) in
    let begins : text
        ≡ c ∷ ((cs ++ 0x3A ∷ 0x20 ∷ (v ++ 0x0D ∷ 0x0A ∷ headers_text header)) ++ more) =
      ap (λ t. (t ++ 0x3A ∷ 0x20 ∷ (v ++ 0x0D ∷ 0x0A ∷ headers_text header)) ++ more) e in
    (
      length seg + (2 + n),
      find-skip (0x0A ∷ line_break) seg (line_break ++ text) (2 + n) h (
          find_next_of text c _ n begins (no_return c first)
            (ap (find (line_break ++ line_break)) cut ∙ found)),
      omega (
        arith,
        size,
        length-append k (0x3A ∷ 0x20 ∷ v),
        length-append k (0x3A ∷ 0x20 ∷ (v ++ (line_break ++ headers_text header))),
        length-append v (line_break ++ headers_text header),
      ),
    )
