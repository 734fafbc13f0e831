-- ===== src/Codec/LengthDelimited/Varint.antt =====
-- The length prefix: groups of seven bits, the lowest first, all but the last with the top bit set.
use native.Mathlib.Numerals.{towards_suc}
use native.Mathlib.Nat.{div-add-mod, pow-suc}
use uvio.Prelude.{
  ℕ, zero, suc, ◌+◌, ◌*◌, ◌/◌, ◌%◌, ◌^◌, ◌≤◌, ◌<◌, ◌≡◌, ap, ◌∙◌, List, [], ◌∷◌, ◌++◌, bit_and,
  bit_or, arith, ltb, ◌==◌, if◌then◌else◌, Bool-cases, inl, inr, true, false, ltb→lt,
}
use uvio.Prelude.Bits.{bit_and_mask, bit_and_shifted, bit_or_shifted}
use uvio.Common.Result.{ok, done}
use uvio.Common.Coro.{co_return, ◌>>◌}
use uvio.Io.Ports.{ByteReader, ByteWriter}
use uvio.Net.Endian.{ByteOrder, ntoh64}
use uvio.Codec.Bytes.{
  read_byte, Reads, read_byte_lem, write_span, Writes, write_span_lem, Writes-seq,
}
use uvio.Codec.LengthDelimited.{decode_rounds, encode_rounds}

-- The groups of `v`, for `v` below 128 ^ (k + 1).
unfoldable pub groups : ℕ → ℕ → List ℕ
groups zero v = v ∷ []
groups (suc k) v =
    let rest = groups k (v / 128) in if ltb v 128 then v ∷ [] else (v % 128 + 128) ∷ rest

-- The byte that the encoder writes for `v`: a last group, and a group that more follow.
last_group : (v : ℕ) → v < 128 → bit_or (bit_and v 0x7F) (if v / 2 ^ 7 == 0 then 0x00 else 0x80) ≡ v
last_group v h =
    let e : v / 2 ^ 7 ≡ 0 = omega arith in
    rw (e, bit_and_mask 7 v) (bit_or_shifted 7 (v % 128) 0 (omega arith) ∙ omega arith)

inner_group :
    (v : ℕ)
    → 128 ≤ v
    → bit_or (bit_and v 0x7F) (if v / 2 ^ 7 == 0 then 0x00 else 0x80) ≡ v % 128 + 128
inner_group v h = rw (bit_and_mask 7 v) (ground (arith, bit_or_shifted 7 (v % 128) 1 (omega arith)))

top_bit : (b : ℕ) → bit_and b 0x80 ≡ b / 128 % 2 * 128
top_bit b = rw (bit_and_shifted 7 b 1) (ap (λ (t : ℕ). t * 128) (bit_and_mask 1 (b / 128)))

next_shift : (i : ℕ) → 2 ^ ((i + 1) * 7) ≡ 128 * 2 ^ (i * 7)
next_shift i =
    let e : (i + 1) * 7 ≡ i * 7 + 7 = omega arith in rw e (simp towards_suc (omega arith))

-- The lowest group of `v` and the groups above it, both from bit `i * 7` on.
split_group : (v i : ℕ) → v * 2 ^ (i * 7) ≡ v % 128 * 2 ^ (i * 7) + v / 128 * 2 ^ ((i + 1) * 7)
split_group v i = omega (
  arith,
  ap (λ (t : ℕ). t * 2 ^ (i * 7)) (div-add-mod v 128),
  ap (λ (t : ℕ). v / 128 * t) (next_shift i),
)

group_fits : (value g unit : ℕ) → value < unit → g < 128 → value + g * unit < 128 * unit
group_fits value g unit h k = grind arith

module _ (order : ByteOrder) (W : ByteWriter) where
  encode_last :
      (n v : ℕ)
      → v < 128
      → encode_rounds order W (suc n) v ≡ (write_span W (v ∷ []) >> co_return tt)
  unfolding encode_rounds
  encode_last n v h = let e : (v / 2 ^ 7 == 0) ≡ true = ground arith in rw (last_group v h, e)

  encode_more :
      (n v : ℕ)
      → 128 ≤ v
      → encode_rounds order W (suc n) v
        ≡ (write_span W ((v % 128 + 128) ∷ []) >> encode_rounds order W n (v / 128))
  unfolding encode_rounds
  encode_more n v h = let e : (v / 2 ^ 7 == 0) ≡ false = ground arith in rw (inner_group v h, e)

  encode_last_lem :
      (n v : ℕ) (s : W.State)
      → v < 128
      → W.IsReady s
      → Writes W (encode_rounds order W (suc n) v) (v ∷ []) s
  encode_last_lem n v s small h =
      let (s', run, h', all) = write_span_lem W (v ∷ []) s (omega arith) h in
      (s', rw (encode_last n v small) (rw run), h', all)

  -- With a round for each group the loop ends, and writes the groups.
  pub encode_rounds_lem :
      (n v : ℕ) (s : W.State)
      → v < 128 ^ suc n
      → W.IsReady s
      → Writes W (encode_rounds order W (suc n) v) (groups n v) s
  unfolding groups
  encode_rounds_lem zero v s fits h = encode_last_lem zero v s (omega arith) h
  encode_rounds_lem (suc n) v s fits h = elim (Bool-cases (ltb v 128)) [
    | inl last ↦ rw last (encode_last_lem (suc n) v s (ltb→lt _ _ last) h)
    | inr inner ↦
        rw (inner, encode_more (suc n) v (ground arith))
          (Writes-seq W (write_span W ((v % 128 + 128) ∷ []))
            (encode_rounds order W (suc n) (v / 128)) ((v % 128 + 128) ∷ []) (groups n (v / 128)) s
            (write_span_lem W ((v % 128 + 128) ∷ []) s (omega arith) h)
            (λ s' h'. encode_rounds_lem n (v / 128) s' (omega (arith, pow-suc 128 (suc n))) h'))
  ]

module _ (order : ByteOrder) (R : ByteReader) where
  -- A last byte, and a byte over the group `g` that more follow.
  decode_last :
      (n i value v : ℕ) (more : List ℕ) (s : R.State)
      → v < 128
      → value < 2 ^ (i * 7)
      → value + v * 2 ^ (i * 7) < 2 ^ 64
      → R.IsReady s
      → R.pending s ≡ v ∷ more
      → Reads R
          (decode_rounds order R (suc n) i value s)
          (ntoh64 order (value + v * 2 ^ (i * 7)))
          more
  unfolding decode_rounds
  decode_last n i value v more s small low fits h e =
      let (s', run, h', p) = read_byte_lem R v more s h e in
      let m : bit_and v 0x7F ≡ v = bit_and_mask 7 v ∙ omega arith in
      let t : bit_and v 0x80 ≡ 0 = top_bit v ∙ omega arith in
      let w : v * 2 ^ (i * 7) % 2 ^ 64 ≡ v * 2 ^ (i * 7) = omega arith in
      (s', rw run (rw (m, t, w, bit_or_shifted (i * 7) value v low)), h', p)

  decode_more :
      (n i value g r : ℕ) (more : List ℕ) (s s' : R.State)
      → g < 128
      → value < 2 ^ (i * 7)
      → value + g * 2 ^ (i * 7) < 2 ^ 64
      → read_byte R s ≡ done (ok (g + 128), s')
      → Reads R (decode_rounds order R n (i + 1) (value + g * 2 ^ (i * 7)) s') r more
      → Reads R (decode_rounds order R (suc n) i value s) r more
  unfolding decode_rounds
  decode_more n i value g r more s s' small low fits run rest =
      let m : bit_and (g + 128) 0x7F ≡ g = bit_and_mask 7 (g + 128) ∙ omega arith in
      let t : bit_and (g + 128) 0x80 ≡ 128 = top_bit (g + 128) ∙ omega arith in
      let w : g * 2 ^ (i * 7) % 2 ^ 64 ≡ g * 2 ^ (i * 7) = omega arith in
      rw run (rw (m, t, w, bit_or_shifted (i * 7) value g low) rest)

  -- `w` is what the groups still to be read stand for; it counts from bit `i * 7` on.
  pub decode_rounds_lem :
      (k n i value v : ℕ) (more : List ℕ) (s : R.State)
      → k < n
      → v < 128 ^ suc k
      → value < 2 ^ (i * 7)
      → value + v * 2 ^ (i * 7) < 2 ^ 64
      → R.IsReady s
      → R.pending s ≡ groups k v ++ more
      → Reads R (decode_rounds order R n i value s) (ntoh64 order (value + v * 2 ^ (i * 7))) more
  unfolding groups
  decode_rounds_lem k zero i value v more s kn wide low fits h e = absurd (omega arith)
  decode_rounds_lem zero (suc n) i value v more s kn wide low fits h e =
      decode_last n i value v more s (omega arith) low fits h e
  decode_rounds_lem (suc k) (suc n) i value v more s kn wide low fits h e =
      elim (Bool-cases (ltb v 128)) [
        | inl last ↦ decode_last n i value v more s (ltb→lt _ _ last) low fits h (e ∙ rw last)
        | inr inner ↦
            let g = v % 128 in
            let (s', run, h', p) =
              read_byte_lem R (g + 128) (groups k (v / 128) ++ more) s h (e ∙ rw inner) in
            let sum : value + v * 2 ^ (i * 7)
                ≡ value + g * 2 ^ (i * 7) + v / 128 * 2 ^ ((i + 1) * 7) =
              omega (arith, split_group v i) in
            let low' : value + g * 2 ^ (i * 7) < 2 ^ ((i + 1) * 7) =
              rw (next_shift i) (group_fits value g (2 ^ (i * 7)) low (omega arith)) in
            rw sum (
              decode_more n i value g
                (ntoh64 order (value + g * 2 ^ (i * 7) + v / 128 * 2 ^ ((i + 1) * 7))) more s s'
                (omega arith) low (omega arith) run
                (decode_rounds_lem k n (i + 1) (value + g * 2 ^ (i * 7)) (v / 128) more s'
                  (omega arith) (omega (arith, pow-suc 128 (suc k))) low' (omega arith) h' p))
      ]
