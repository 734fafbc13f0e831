-- ===== src/Codec/Mask.antt =====
-- uvio/codec/websocket.hpp: `WebsocketCodec::apply_mask`. The span is walked in blocks of four bytes
-- and then byte by byte; the index `i`, an `unsigned int` in the first loop, does not wrap on the
-- lengths below 2 ^ 32 that the theorems are about.
use uvio.Prelude.{
  ℕ, zero, suc, ◌+◌, ◌-◌, ◌*◌, ◌/◌, ◌%◌, ◌^◌, ◌<◌, ◌≡◌, refl, sym, ap, ap₂, ◌∙◌, List, [], ◌∷◌,
  ◌++◌, length, get_or, take, drop, bit_and, bit_xor, arith, length-cut, take-append-drop,
}
use uvio.Prelude.Bits.{bit_and_mask, bit_and_shifted, bit_xor_twice}

-- The second loop, from index `i` on.
unfoldable pub mask_rest : ℕ → List ℕ → List ℕ → List ℕ
mask_rest i mask [] = []
mask_rest i mask (x ∷ xs) = bit_xor x (get_or mask (i % 4) 0) ∷ mask_rest (i + 1) mask xs

-- The first loop, over `n` blocks.
unfoldable pub mask_blocks : ℕ → List ℕ → List ℕ → List ℕ
mask_blocks (suc n) mask (a ∷ b ∷ c ∷ d ∷ xs) =
    bit_xor a (get_or mask 0 0)
    ∷ bit_xor b (get_or mask 1 0)
    ∷ bit_xor c (get_or mask 2 0)
    ∷ bit_xor d (get_or mask 3 0)
    ∷ mask_blocks n mask xs
mask_blocks n mask xs = []

-- `apply_mask`: the span after the call. The `~3` of the source is 2 ^ 64 - 4 as a `size_t`.
unfoldable pub apply_mask : List ℕ → List ℕ → List ℕ
unfolding mask_blocks mask_rest
apply_mask bytes mask =
    let whole = bit_and (length bytes) (2 ^ 64 - 4) in
    mask_blocks (whole / 4) mask (take whole bytes) ++ mask_rest whole mask (drop whole bytes)

mask_rest-append :
    (i : ℕ) (mask xs ys : List ℕ)
    → mask_rest i mask (xs ++ ys) ≡ mask_rest i mask xs ++ mask_rest (i + length xs) mask ys
unfolding mask_rest
mask_rest-append i mask [] ys = ap (λ t. mask_rest t mask ys) (omega arith)
mask_rest-append i mask (x ∷ xs) ys =
    let e : i + 1 + length xs ≡ i + suc (length xs) = omega arith in
    ap (λ t. bit_xor x (get_or mask (i % 4) 0) ∷ t)
      (mask_rest-append (i + 1) mask xs ys
        ∙ ap (λ t. mask_rest (i + 1) mask xs ++ mask_rest t mask ys) e)

mask_blocks_lem :
    (n k : ℕ) (mask xs : List ℕ)
    → length xs ≡ 4 * n
    → mask_blocks n mask xs ≡ mask_rest (4 * k) mask xs
unfolding mask_rest mask_blocks
mask_blocks_lem zero k mask [] h = refl
mask_blocks_lem zero k mask (x ∷ xs) h = absurd (omega arith)
mask_blocks_lem (suc n) k mask [] h = absurd (omega arith)
mask_blocks_lem (suc n) k mask (a ∷ []) h = absurd (omega arith)
mask_blocks_lem (suc n) k mask (a ∷ b ∷ []) h = absurd (omega arith)
mask_blocks_lem (suc n) k mask (a ∷ b ∷ c ∷ []) h = absurd (omega arith)
mask_blocks_lem (suc n) k mask (a ∷ b ∷ c ∷ d ∷ xs) h =
    let e0 : 4 * k % 4 ≡ 0 = omega arith in
    let e1 : (4 * k + 1) % 4 ≡ 1 = omega arith in
    let e2 : (4 * k + 1 + 1) % 4 ≡ 2 = omega arith in
    let e3 : (4 * k + 1 + 1 + 1) % 4 ≡ 3 = omega arith in
    let e4 : 4 * k + 1 + 1 + 1 + 1 ≡ 4 * (k + 1) = omega arith in
    rw (e0, e1, e2, e3, e4, mask_blocks_lem n (k + 1) mask xs (omega arith)) refl

-- On a span of less than 2 ^ 32 bytes the unrolled loops of `apply_mask` are one loop over its
-- bytes, each with the byte of the mask at its index modulo four.
pub apply_mask_lem :
    (bytes mask : List ℕ) → length bytes < 2 ^ 32 → apply_mask bytes mask ≡ mask_rest 0 mask bytes
unfolding apply_mask
apply_mask_lem bytes mask h =
    let n = length bytes in
    let e : bit_and n (2 ^ 64 - 4) ≡ n / 4 * 4 =
      bit_and_shifted 2 n (2 ^ 62 - 1) ∙ ap (λ t. t * 4) (bit_and_mask 62 (n / 4) ∙ omega arith) in
    let w = n / 4 * 4 in
    let cut : 0 + length (take w bytes) ≡ w = omega (arith, length-cut w bytes (omega arith)) in
    let blocks = mask_blocks_lem (w / 4) 0 mask (take w bytes) (omega arith) in
    rw (e, blocks)
      (ap (λ t. mask_rest 0 mask (take w bytes) ++ mask_rest t mask (drop w bytes)) (sym cut)
        ∙ sym (mask_rest-append 0 mask (take w bytes) (drop w bytes))
        ∙ ap (mask_rest 0 mask) (take-append-drop w bytes))

mask_rest_twice : (i : ℕ) (mask bytes : List ℕ) → mask_rest i mask (mask_rest i mask bytes) ≡ bytes
unfolding mask_rest
mask_rest_twice i mask [] = refl
mask_rest_twice i mask (x ∷ xs) =
    ap₂ ◌∷◌ (bit_xor_twice x (get_or mask (i % 4) 0)) (mask_rest_twice (i + 1) mask xs)

length-mask_rest : (i : ℕ) (mask bytes : List ℕ) → length (mask_rest i mask bytes) ≡ length bytes
unfolding mask_rest
length-mask_rest i mask [] = refl
length-mask_rest i mask (x ∷ xs) = ap suc (length-mask_rest (i + 1) mask xs)

pub length-apply_mask :
    (bytes mask : List ℕ) → length bytes < 2 ^ 32 → length (apply_mask bytes mask) ≡ length bytes
length-apply_mask bytes mask h = rw (apply_mask_lem bytes mask h) (length-mask_rest 0 mask bytes)

-- Masking a span of less than 2 ^ 32 bytes twice with one mask gives the span back.
pub apply_mask_twice :
    (bytes mask : List ℕ) → length bytes < 2 ^ 32 → apply_mask (apply_mask bytes mask) mask ≡ bytes
apply_mask_twice bytes mask h =
    let once = apply_mask_lem bytes mask h in
    apply_mask_lem (apply_mask bytes mask) mask (rw (length-apply_mask bytes mask h) h)
    ∙ rw once (mask_rest_twice 0 mask bytes)
