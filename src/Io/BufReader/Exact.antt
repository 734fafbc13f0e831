-- ===== src/Io/BufReader/Exact.antt =====
-- `ImplBufRead::read_exact`: the span receives exactly the next bytes of the stream, whatever way
-- the bytes are split between the buffer and the IO.
use uvio.Prelude.{
  length-overwrite, slice-overwrite, append-nil, nil_of_length, if◌then◌else◌, ℕ, zero, suc, ◌+◌,
  ◌≤◌, ◌<◌, ◌≡◌, refl, sym, ap, ◌∙◌, Bool-cases, ltb, leb, ltb→lt, leb→le, inl, inr, List, [], ◌++◌,
  length, take, drop, overwrite, min, arith, length-append, length-drop, append_split,
  append_cancel, append_assoc, overwrite_all,
}
use uvio.Common.Result.{Result, ok, Run, done}
use uvio.Io.Buffer.{StreamBuffer, r_remaining, r_slice, w_remaining, capacity, write_to}
use uvio.Io.Buffer.Valid.{
  IsValid, length-r_slice, reset_data_lem, taken, left, write_to_lem, appended, appended_lem,
}
use uvio.Io.Source.{Source}
use uvio.Net.TcpStream.Exact as Tcp
use uvio.Io.BufReader.{BufReader, make_room, read_exact, exact_loop, exact_direct, serve_exact}

module _ (n : ℕ) {b : StreamBuffer} (v : IsValid b) where
  -- Making room keeps the readable bytes, and leaves free space if the bytes wanted fit the buffer.
  pub make_room_lem :
      IsValid (make_room n b)
      × (r_slice (make_room n b) ≡ r_slice b)
      × (capacity (make_room n b) ≡ capacity b)
      × (r_remaining (make_room n b) ≡ r_remaining b)
  unfolding make_room
  make_room_lem = elim (Bool-cases (ltb (w_remaining b) n)) [
    | inl tight ↦
        let law = reset_data_lem v in
        rw tight (
          law.0,
          law.1,
          law.2,
          omega (arith, length-r_slice v, length-r_slice (law.0), ap length (law.1)),
        )
    | inr roomy ↦ rw roomy (v, refl, refl, refl)
  ]

  pub make_room_free : r_remaining b < n → n ≤ capacity b → 0 < w_remaining (make_room n b)
  unfolding make_room
  make_room_free h k = elim (Bool-cases (ltb (w_remaining b) n)) [
    | inl tight ↦ rw tight (omega (arith, (reset_data_lem v).3))
    | inr roomy ↦ rw roomy (ground arith)
  ]

-- A buffer that holds all the bytes wanted hands them over.
pub write_to_full :
    (buf xs more : List ℕ) {b : StreamBuffer}
    → IsValid b
    → length buf ≤ r_remaining b
    → length xs ≡ length buf
    → (rest : List ℕ) → r_slice b ++ rest ≡ xs ++ more
    → (write_to buf b ≡ done (length buf, xs, left (length buf) b))
      × IsValid (left (length buf) b)
      × (r_slice (left (length buf) b) ++ rest ≡ more)
      × (capacity (left (length buf) b) ≡ capacity b)
write_to_full buf xs more {b} v h l rest e =
    let law = write_to_lem buf v in
    let n : min (r_remaining b) (length buf) ≡ length buf = omega arith in
    let cut =
      append_cancel (taken (length buf) b) xs (r_slice (left (length buf) b) ++ rest) more
        (sym (append_assoc (taken (length buf) b) (r_slice (left (length buf) b)) rest)
          ∙ ap (λ r. r ++ rest) (sym (law.2))
          ∙ e)
        (omega (arith, law.3)) in
    let copied : overwrite 0 (taken (length buf) b) buf ≡ xs =
      ap (λ t. overwrite 0 t buf) (cut.0) ∙ overwrite_all xs buf l in
    (law.0 ∙ (λ i. done (n i, copied i, left (length buf) b)), law.1, cut.1, law.4)

module _ (S : Source) where
  open S use {Io, rest, stop, Steady, read_some, read_end}

  -- The bytes that a reader has still to give: those in the buffer, then those of the stream.
  abbrev pub pending : BufReader S → List ℕ
  pending r = r_slice r.r_stream ++ rest r.io

  -- A run that fills the span with `xs`, after which `more` is pending.
  abbrev pub Served : Run (Result (Unit {0}) × List ℕ × BufReader S) → List ℕ → List ℕ → ℕ → Type 0
  Served run xs more cap =
      (r' : BufReader S) × (run ≡ done (ok tt, xs, r'))
      × IsValid r'.r_stream
      × (pending r' ≡ more)
      × (capacity r'.r_stream ≡ cap)
      × Steady r'.io

  serve_exact_lem :
      (io : Io) (buf xs more : List ℕ) (cap : ℕ) (b : StreamBuffer)
      → IsValid b
      → capacity b ≡ cap
      → length buf ≤ r_remaining b
      → length xs ≡ length buf
      → Steady io
      → r_slice b ++ rest io ≡ xs ++ more
      → Served (serve_exact S io buf b) xs more cap
  serve_exact_lem io buf xs more cap b v c h l st e =
      let law = write_to_full buf xs more v h l (rest io) e in
      (record { io = io; r_stream = left (length buf) b }, rw (law.0), law.1, law.2, law.3 ∙ c, st)

  -- One round of the loop, with the buffer made ready and `ys` read.
  exact_round :
      (fuel : ℕ) (buf ys : List ℕ) (r : BufReader S) (io' : Io)
      → let b = make_room (length buf) r.r_stream in
        IsValid b
        → length ys ≤ w_remaining b
        → S.read (w_remaining b) r.io ≡ (ok ys, io')
        → exact_loop S (suc fuel) buf r ≡ (
            if leb (length buf) (r_remaining (appended ys b))
            then serve_exact S io' buf (appended ys b)
            else exact_loop S fuel buf (record { io = io'; r_stream = appended ys b }))
  unfolding exact_loop
  exact_round fuel buf ys r io' v fits e =
      rw (e, exact_loop) (rw ((appended_lem ys v fits).0) (rw e))

  -- What the loop is to do with a given amount of fuel.
  abbrev LoopServes : ℕ → Type 0
  LoopServes fuel =
      (buf xs more : List ℕ) (cap : ℕ) (r : BufReader S)
      → IsValid r.r_stream
      → capacity r.r_stream ≡ cap
      → r_remaining r.r_stream < length buf
      → length buf ≤ cap
      → length buf ≤ r_remaining r.r_stream + fuel
      → length xs ≡ length buf
      → Steady r.io
      → pending r ≡ xs ++ more
      → Served (exact_loop S fuel buf r) xs more cap

  -- After a read of `ys`, `b` being the buffer that was made ready.
  exact_loop_after :
      (fuel : ℕ) (buf xs more ys : List ℕ) (io' : Io) (cap : ℕ) (b : StreamBuffer)
      → LoopServes fuel
      → IsValid b
      → capacity b ≡ cap
      → length buf ≤ cap
      → length buf ≤ r_remaining b + suc fuel
      → length xs ≡ length buf
      → 0 < length ys
      → length ys ≤ w_remaining b
      → Steady io'
      → r_slice b ++ (ys ++ rest io') ≡ xs ++ more
      → Served
          (if leb (length buf) (r_remaining (appended ys b))
            then serve_exact S io' buf (appended ys b)
            else exact_loop S fuel buf (record { io = io'; r_stream = appended ys b }))
          xs
          more
          cap
  exact_loop_after fuel buf xs more ys io' cap b loop v c k f l pos fits st e =
      let b' = appended ys b in
      let (_, v', slice', cap') = appended_lem ys v fits in
      let e' : r_slice b' ++ rest io' ≡ xs ++ more =
        rw slice' (append_assoc (r_slice b) ys (rest io') ∙ e) in
      elim (Bool-cases (leb (length buf) (r_remaining b'))) [
        | inl enough ↦
            rw enough
              (serve_exact_lem io' buf xs more cap b' v' (cap' ∙ c) (leb→le _ _ enough) l st e')
        | inr short ↦ rw short (
            loop buf xs more cap (record { io = io'; r_stream = b' }) v' (cap' ∙ c) (ground arith) k
              (omega (arith, v.ordered)) l st e')
      ]

  exact_loop_lem : (fuel : ℕ) → LoopServes fuel
  exact_loop_lem zero buf xs more cap r v c h k f l st e = absurd (omega arith)
  exact_loop_lem (suc fuel) buf xs more cap r v c h k f l st e =
      let b = make_room (length buf) r.r_stream in
      let (vb, same_slice, same_cap, same_rem) = make_room_lem (length buf) v in
      let free = make_room_free (length buf) v h (omega arith) in
      let total = ap length e ∙ length-append xs more in
      let size = length-append (r_slice r.r_stream) (rest r.io) in
      let (ys, io', got, pos, fits, split, same, still) =
        read_some (w_remaining b) r.io st free
          (λ z. absurd (omega (arith, ap length z, total, size, length-r_slice v))) in
      rw (exact_round fuel buf ys r io' vb fits got) (
        exact_loop_after fuel buf xs more ys io' cap b (exact_loop_lem fuel) vb (same_cap ∙ c) k
          (omega arith) l pos fits still (rw (same_slice, ← split) e))

  -- After `write_to` has emptied the buffer into the front of the span, `zs` are to come.
  exact_direct_after :
      (fuel : ℕ) (buf xs zs more : List ℕ) (cap : ℕ) (r : BufReader S)
      → IsValid r.r_stream
      → capacity r.r_stream ≡ cap
      → cap < length buf
      → length buf ≤ fuel
      → length xs ≡ length buf
      → xs ≡ taken (length buf) r.r_stream ++ zs
      → Steady r.io
      → zs ++ more ≡ rest r.io
      → r_slice (left (length buf) r.r_stream) ≡ []
      → Served (exact_direct S fuel buf r) xs more cap
  unfolding exact_direct
  exact_direct_after fuel buf xs zs more cap r v c big f l cut st after none_left =
      let b = r.r_stream in
      let (run, v', split, size, cap') = write_to_lem buf v in
      let n = min (r_remaining b) (length buf) in
      let front = overwrite 0 (taken (length buf) b) buf in
      let d = length-drop n front in
      let o = length-overwrite 0 (taken (length buf) b) buf in
      let m = ap length cut ∙ length-append (taken (length buf) b) zs in
      let (io', got, rest', _, still) =
        Tcp.socket_read_exact_lem S fuel (drop n front) zs more r.io (omega arith) (omega arith) st
          (sym after) in
      let kept : take n front ≡ taken (length buf) b =
        slice-overwrite 0 0 n (taken (length buf) b) buf (omega arith) (omega arith)
          (omega arith) in
      (
        record { io = io'; r_stream = left (length buf) b },
        rw (run, got, kept)
            (ap (λ t. done (ok tt, t, record { io = io'; r_stream = left (length buf) b }))
              (sym cut)),
        v',
        rw none_left rest',
        cap' ∙ c,
        still,
      )

  exact_direct_lem :
      (fuel : ℕ) (buf xs more : List ℕ) (cap : ℕ) (r : BufReader S)
      → IsValid r.r_stream
      → capacity r.r_stream ≡ cap
      → cap < length buf
      → length buf ≤ fuel
      → length xs ≡ length buf
      → Steady r.io
      → pending r ≡ xs ++ more
      → Served (exact_direct S fuel buf r) xs more cap
  exact_direct_lem fuel buf xs more cap r v c big f l st e =
      let b = r.r_stream in
      let (run, v', split, size, cap') = write_to_lem buf v in
      let n = length-append (taken (length buf) b) (r_slice (left (length buf) b)) in
      let none_left : r_slice (left (length buf) b) ≡ [] =
        nil_of_length _ (omega (arith, n, ap length split, length-r_slice v, v.within)) in
      let whole : r_slice b ≡ taken (length buf) b =
        split ∙ rw none_left (append-nil (taken (length buf) b)) in
      let (zs, cut, after) =
        append_split xs (taken (length buf) b) more (rest r.io)
          (sym e ∙ ap (λ t. t ++ rest r.io) whole) (omega arith) in
      exact_direct_after fuel buf xs zs more cap r v c big f l cut st after none_left

  -- With at least one round of fuel for each byte of the span, on a steady stream, none of whose reads
  -- comes back with nread == 0: if that many bytes are pending,
  -- `read_exact` succeeds, the span holds exactly the next pending bytes, all others stay pending in
  -- order, and the buffer is valid and keeps its capacity. No assertion of the buffer fails.
  pub read_exact_lem :
      (fuel : ℕ) (buf xs more : List ℕ) (r : BufReader S)
      → IsValid r.r_stream
      → length buf ≤ fuel
      → length xs ≡ length buf
      → Steady r.io
      → pending r ≡ xs ++ more
      → Served (read_exact S fuel buf r) xs more (capacity r.r_stream)
  unfolding read_exact
  read_exact_lem fuel buf xs more r v f l st e =
      elim (Bool-cases (ltb (capacity r.r_stream) (length buf))) [
        | inl big ↦ rw big (exact_direct_lem fuel buf xs more _ r v refl (ltb→lt _ _ big) f l st e)
        | inr fits ↦ rw fits (elim (Bool-cases (leb (length buf) (r_remaining r.r_stream))) [
          | inl enough ↦
              rw enough
                (serve_exact_lem r.io buf xs more _ r.r_stream v refl (leb→le _ _ enough) l st e)
          | inr short ↦ rw short (
              exact_loop_lem fuel buf xs more _ r v refl (ground arith) (ground arith) (omega arith)
                l st e)
        ])
      ]
