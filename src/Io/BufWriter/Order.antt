-- ===== src/Io/BufWriter/Order.antt =====
-- `BufWriter`: whatever is buffered or written through, the stream receives the bytes in the order
-- of the calls.
use uvio.Prelude.{
  ◌≢◌, if◌then◌else◌, ℕ, suc, ◌+◌, ◌≤◌, ◌<◌, ◌%◌, ◌^◌, ◌≡◌, refl, sym, ap, ◌∙◌, Bool-cases, inl,
  inr, true, false, ltb→lt, leb→le, List, [], ◌++◌, append-nil, append_assoc, length, arith,
  nil_of_length, take_all, leb, ltb, ◌==◌, ==_iff, slice_self, take, length-take,
}
use uvio.Common.Result.{Result, ok, Run, done}
use uvio.Io.Buffer.{
  StreamBuffer, r_remaining, r_slice, w_remaining, reset_data, reset_pos, read_from,
}
use uvio.Io.Buffer.Valid.{
  IsValid, length-r_slice, reset_data_lem, advance, r_increase_lem, appended, read_from_lem,
}
use uvio.Io.Sink.{Sink}
use uvio.Io.BufWriter.{fits_in, BufWriter, write_through, spill, write, flush, write_all}

-- Where the cast to `int` keeps the size, the test is the comparison; where it fails, there is a byte
-- to write.
fits_in-leb : (size room : ℕ) → size < 2 ^ 31 → fits_in size room ≡ leb size room
unfolding fits_in
fits_in-leb size room h =
    let low : size % 2 ^ 32 ≡ size = omega arith in
    let small : ltb size (2 ^ 31) ≡ true = ground arith in rw (low, small) refl

fits_in-none : (size room : ℕ) → fits_in size room ≡ false → 0 < size
unfolding fits_in
fits_in-none size room h = ground arith

module _ (K : Sink) where
  open K use {Io, sent, IsOpen, write_open}

  -- Everything that was written so far: what the stream has, then what is buffered.
  abbrev pub written : BufWriter K → List ℕ
  written w = sent w.io ++ r_slice w.w_stream

  pub record IsReady (w : BufWriter K) : Type 0 where
    pub valid : IsValid w.w_stream
    pub is_open : IsOpen w.io

  -- A run that succeeds with `a`, leaves the writer ready, and has `bytes` written in all.
  abbrev pub Writes {ℓ} : {A : Type ℓ} → Run (Result A × BufWriter K) → A → List ℕ → Type ℓ
  Writes run a bytes =
      (w' : BufWriter K) × (run ≡ done (ok a, w')) × IsReady w' × (written w' ≡ bytes)

  -- The buffered bytes pass to the stream, and none is left in the buffer.
  spill_lem :
      (w : BufWriter K)
      → IsReady w
      → 0 < r_remaining w.w_stream
      → (w' : BufWriter K) × (spill K w ≡ done (ok (r_remaining w.w_stream), w'))
        × IsReady w'
        × (sent w'.io ≡ written w)
        × (r_slice w'.w_stream ≡ [])
        × (w'.w_stream.r_pos ≡ w'.w_stream.w_pos)
  unfolding spill
  spill_lem w h pos =
      let b = w.w_stream in
      let n = r_remaining b in
      let (io', run, o, s) =
        write_open (r_slice b) w.io h.is_open (omega (arith, length-r_slice h.valid)) in
      let (inc, v, _) = r_increase_lem n h.valid (omega arith) in
      let at_end : b.r_pos + n ≡ b.w_pos = omega (arith, h.valid.ordered) in
      (
        record { io = io'; w_stream = advance n b },
        rw (run, spill) (rw inc (rw run)),
        record { valid = v; is_open = o },
        s,
        rw at_end (slice_self b.w_pos b.buf),
        at_end,
      )

  write_through_lem :
      (count : ℕ) (buf : List ℕ) (w : BufWriter K)
      → IsReady w
      → 0 < length buf
      → r_slice w.w_stream ≡ []
      → Writes (write_through K count buf w) (count + length buf) (sent w.io ++ buf)
  unfolding write_through
  write_through_lem count buf w h pos none_left =
      let (io', run, o, s) = write_open buf w.io h.is_open pos in
      (
        record w { io = io' },
        rw (run, write_through) (rw run),
        record { valid = h.valid; is_open = o },
        rw (none_left, append-nil) s,
      )

  -- The count that `write` returns.
  abbrev pub counted : List ℕ → BufWriter K → ℕ
  counted buf w =
      if leb (length buf) (w_remaining w.w_stream)
      then length buf
      else r_remaining w.w_stream + length buf

  write_buffered :
      (buf : List ℕ) (w : BufWriter K)
      → IsReady w
      → length buf ≤ w_remaining w.w_stream
      → (b : StreamBuffer) × (read_from buf w.w_stream ≡ done (length buf, b))
        × IsValid b
        × (r_slice b ≡ r_slice w.w_stream ++ buf)
  write_buffered buf w h fits =
      let whole = take_all (w_remaining w.w_stream) buf fits in
      let (run, v, s, _) = read_from_lem buf h.valid in
      (
        appended (take (w_remaining w.w_stream) buf) w.w_stream,
        run ∙ (λ i.
            done (length (whole i), appended (take (w_remaining w.w_stream) buf) w.w_stream)),
        v,
        s ∙ ap (λ t. r_slice w.w_stream ++ t) whole,
      )

  -- The branch that spills the buffer and writes `buf` past it.
  write_spilled :
      (buf : List ℕ) (w w' : BufWriter K)
      → IsReady w'
      → 0 < length buf
      → r_slice w'.w_stream ≡ []
      → sent w'.io ≡ written w
      → Writes
          (write_through K
            (r_remaining w.w_stream)
            buf
            (record w' { w_stream = reset_data w'.w_stream }))
          (r_remaining w.w_stream + length buf)
          (written w ++ buf)
  write_spilled buf w w' h pos none_left s =
      let law = reset_data_lem h.valid in
      let (w'', run, ready, all) =
        write_through_lem (r_remaining w.w_stream) buf
          (record w' { w_stream = reset_data w'.w_stream })
          (record { valid = law.0; is_open = h.is_open }) pos (law.1 ∙ none_left) in
      (w'', run, ready, all ∙ ap (λ t. t ++ buf) s)

  -- The branches past the buffer.
  write_full :
      (buf : List ℕ) (w : BufWriter K)
      → IsReady w
      → fits_in (length buf) (w_remaining w.w_stream) ≡ false
      → Writes (write K buf w) (r_remaining w.w_stream + length buf) (written w ++ buf)
  unfolding write
  write_full buf w h full =
      let pos = fits_in-none (length buf) (w_remaining w.w_stream) full in
      rw (write, full)
        (elim (Bool-cases (ltb 0 (r_remaining w.w_stream))) [
          | inl some_left ↦
              let (w', run, ready, s, none_left, _) = spill_lem w h (ltb→lt _ _ some_left) in
              rw (some_left, run) (write_spilled buf w w' ready pos none_left s)
          | inr none_left ↦
              let empty : r_remaining w.w_stream ≡ 0 = ground arith in
              let none_left' = nil_of_length _ (length-r_slice h.valid ∙ empty) in
              rw (none_left, empty, none_left', append-nil)
                (write_through_lem 0 buf w h pos none_left')
        ])

  -- On an open stream `write` of less than 2 ^ 31 bytes succeeds on every branch. It adds exactly the
  -- bytes of `buf` behind all that was written before. The count is that of `buf` if it fits the free
  -- space; if not, the bytes that were still buffered are counted again.
  pub write_lem :
      (buf : List ℕ) (w : BufWriter K)
      → length buf < 2 ^ 31
      → IsReady w
      → Writes (write K buf w) (counted buf w) (written w ++ buf)
  unfolding write
  write_lem buf w small h =
      let test = fits_in-leb (length buf) (w_remaining w.w_stream) small in
      elim (Bool-cases (leb (length buf) (w_remaining w.w_stream))) [
        | inl fits ↦
            let (b, run, v, s) = write_buffered buf w h (leb→le _ _ fits) in
            rw (fits, test ∙ fits)
              (
                record w { w_stream = b },
                rw run,
                record { valid = v; is_open = h.is_open },
                rw s (sym (append_assoc (sent w.io) (r_slice w.w_stream) buf)),
              )
        | inr full ↦ rw full (write_full buf w h (test ∙ full))
      ]

  -- A run that succeeds and leaves `bytes` with the stream and nothing in the buffer.
  abbrev pub Flushes : Run (Result (Unit {0}) × BufWriter K) → List ℕ → Type 0
  Flushes run bytes =
      (w' : BufWriter K) × (run ≡ done (ok tt, w'))
      × IsReady w'
      × (sent w'.io ≡ bytes)
      × (r_slice w'.w_stream ≡ [])

  flush_empty :
      (fuel : ℕ) (bytes : List ℕ) (w : BufWriter K)
      → IsReady w
      → r_slice w.w_stream ≡ []
      → sent w.io ≡ bytes
      → Flushes (flush K (suc fuel) w) bytes
  unfolding flush
  flush_empty fuel bytes w h none_left s = (
    record w { w_stream = reset_pos w.w_stream },
    rw (none_left, flush),
    record {
      valid = unfold reset_pos in record { ordered = omega arith; within = omega arith };
      is_open = h.is_open;
    },
    s,
    unfold reset_pos in refl,
  )

  -- Two rounds of fuel are enough: on an open stream `flush` succeeds, the stream has received all
  -- bytes written so far in their order, and nothing stays buffered.
  pub flush_lem :
      (fuel : ℕ) (w : BufWriter K) → IsReady w → Flushes (flush K (suc (suc fuel)) w) (written w)
  unfolding flush
  flush_lem fuel w h = elim (Bool-cases (length (r_slice w.w_stream) == 0)) [
    | inl empty ↦
        let none_left = nil_of_length _ ((==_iff _ 0).0 empty) in
        flush_empty (suc fuel) (written w) w h none_left (sym (rw (none_left, append-nil)))
    | inr some_left ↦
        let l = length-r_slice h.valid in
        let (w', run, ready, s, none_left, _) = spill_lem w h (ground (arith, l)) in
        rw (some_left, run) (flush_empty fuel (written w) w' ready none_left s)
  ]

  -- `write_all` of less than 2 ^ 31 bytes on an open stream, with two rounds of fuel: afterwards the
  -- stream has received all that was written before and then `buf`, and nothing stays buffered.
  pub write_all_lem :
      (fuel : ℕ) (buf : List ℕ) (w : BufWriter K)
      → length buf < 2 ^ 31
      → IsReady w
      → Flushes (write_all K (suc (suc fuel)) buf w) (written w ++ buf)
  unfolding write_all
  write_all_lem fuel buf w small h =
      let (w', run, ready, all) = write_lem buf w small h in
      rw (run, ← all) (flush_lem fuel w' ready)

  -- Where the wrapped test takes too long a span for one that fits, it is cut to the free space.
  write_cut :
      (buf : List ℕ) (w w' : BufWriter K) (n : ℕ)
      → IsReady w
      → fits_in (length buf) (w_remaining w.w_stream) ≡ true
      → write K buf w ≡ done (ok n, w')
      → n ≤ w_remaining w.w_stream
  unfolding write
  write_cut buf w w' n h fits e =
      let b = appended (take (w_remaining w.w_stream) buf) w.w_stream in
      let cut : write K buf w
          ≡ done (ok (length (take (w_remaining w.w_stream) buf)), record w { w_stream = b }) =
        rw (write, fits) (rw ((read_from_lem buf h.valid).0) refl) in
      let same : length (take (w_remaining w.w_stream) buf) ≡ n = cc (cut, e) in
      omega (arith, same, length-take (w_remaining w.w_stream) buf)

  -- Where `buf` does not fit and bytes are still buffered, the count that `write` returns on an open
  -- stream is not the number of bytes it was given.
  pub write_overcounts :
      (buf : List ℕ) (w w' : BufWriter K) (n : ℕ)
      → IsReady w
      → w_remaining w.w_stream < length buf
      → 0 < r_remaining w.w_stream
      → write K buf w ≡ done (ok n, w')
      → n ≢ length buf
  write_overcounts buf w w' n h full pos e =
      elim (Bool-cases (fits_in (length buf) (w_remaining w.w_stream))) [
        | inl fits ↦ let few = write_cut buf w w' n h fits e in ground arith
        | inr test ↦
            let (w'', run, _, _) = write_full buf w h test in
            let same : r_remaining w.w_stream + length buf ≡ n = cc (run, e) in ground arith
      ]
