-- ===== src/Io/Buffer/Fifo.antt =====
-- A `StreamBuffer` under any sequence of its operations is a first-in-first-out queue of bytes.
use uvio.Prelude.{
  ℕ, ◌≡◌, refl, sym, ap, ◌∙◌, List, [], ◌∷◌, ◌++◌, append-nil, append_assoc, min, length, take,
  replicate, overwrite, slice-overwrite, take-length-take, arith,
}
use uvio.Common.Result.{Run, done, ◌>>=◌}
use uvio.Io.Buffer.{
  StreamBuffer, r_remaining, r_slice, w_remaining, reset_data, write_to, read_from,
}
use uvio.Io.Buffer.Valid.{
  IsValid, reset_data_lem, taken, left, write_to_lem, appended, read_from_lem,
}

-- A zeroed array of `n` bytes.
abbrev pub span : ℕ → List ℕ
span n = replicate n 0

-- A call: `get n` is `write_to` on a zeroed span of `n` bytes, `put src` is `read_from`.
pub data Op : Type 0 where
  get : ℕ → Op
  put : List ℕ → Op
  compact : Op

-- The bytes that a run of calls took in, those that it gave out, and the buffer after it.
pub record Trace : Type 0 where
  pub accepted : List ℕ
  pub delivered : List ℕ
  pub after : StreamBuffer

-- The calls in order. Of a span only its first bytes, as many as `write_to` reports, are delivered.
unfoldable pub run : List Op → StreamBuffer → Run Trace
unfolding write_to read_from reset_data
run [] b = done (record { accepted = []; delivered = []; after = b })
run (get n ∷ ops) b = do
  (len, dst, b') ← write_to (span n) b
  t ← run ops b'
  done (record t { delivered = take len dst ++ t.delivered })
run (put src ∷ ops) b = do
  (len, b') ← read_from src b
  t ← run ops b'
  done (record t { accepted = take len src ++ t.accepted })
run (compact ∷ ops) b = run ops (reset_data b)

-- The queue's law: what was readable and what came in is what went out and what is readable now.
abbrev pub Balanced : StreamBuffer → Trace → Type 0
Balanced b t = r_slice b ++ t.accepted ≡ t.delivered ++ r_slice t.after

get_step :
    (n : ℕ) {b : StreamBuffer}
    → IsValid b
    → take
        (min (r_remaining b) (length (span n)))
        (overwrite 0 (taken (length (span n)) b) (span n))
      ≡ taken (length (span n)) b
get_step n {b} v =
    let dst = span n in
    let l = (write_to_lem dst v).3 in
    slice-overwrite 0 0 (min (r_remaining b) (length dst)) (taken (length dst) b) dst (omega arith)
      (omega arith) (omega arith)

-- What a run of calls from `b` comes to.
abbrev Runs : List Op → StreamBuffer → Type 0
Runs ops b = (t : Trace) × (run ops b ≡ done t) × IsValid t.after × Balanced b t

get_first :
    (n : ℕ) (ops : List Op) (b : StreamBuffer)
    → IsValid b
    → Runs ops (left (length (span n)) b)
    → Runs (get n ∷ ops) b
unfolding run
get_first n ops b v (t, e, w, bal) =
    let m = length (span n) in
    let law = write_to_lem (span n) v in
    (
      record t { delivered = taken m b ++ t.delivered },
      rw (law.0, e, get_step n v),
      w,
      rw (law.2) (simp append_assoc (ap (λ r. taken m b ++ r) bal)),
    )

put_first :
    (src : List ℕ) (ops : List Op) (b : StreamBuffer)
    → IsValid b
    → Runs ops (appended (take (w_remaining b) src) b)
    → Runs (put src ∷ ops) b
unfolding run
put_first src ops b v (t, e, w, bal) =
    let xs = take (w_remaining b) src in
    let law = read_from_lem src v in
    (
      record t { accepted = xs ++ t.accepted },
      rw (law.0, e, take-length-take (w_remaining b) src),
      w,
      sym (append_assoc (r_slice b) xs t.accepted) ∙ rw (← law.2) bal,
    )

-- From a valid buffer every sequence of calls runs to its end with all assertions holding, leaves a
-- valid buffer, and loses, duplicates and reorders no byte.
pub run_fifo :
    (ops : List Op) (b : StreamBuffer)
    → IsValid b
    → (t : Trace) × (run ops b ≡ done t) × IsValid t.after × Balanced b t
unfolding run
run_fifo [] b v = (record { accepted = []; delivered = []; after = b }, refl, v, append-nil _)
run_fifo (get n ∷ ops) b v =
    get_first n ops b v (run_fifo ops (left (length (span n)) b) (write_to_lem (span n) v).1)
run_fifo (put src ∷ ops) b v =
    put_first src ops b v
      (run_fifo ops (appended (take (w_remaining b) src) b) (read_from_lem src v).1)
run_fifo (compact ∷ ops) b v =
    let law = reset_data_lem v in
    let (t, e, w, bal) = run_fifo ops (reset_data b) law.0 in
    (t, e, w, ap (λ r. r ++ t.accepted) (sym law.1) ∙ bal)
