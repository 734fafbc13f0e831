-- ===== src/Echo.antt =====
-- examples/echo_server.cpp: `process`, which answers each read with its whole buffer.
use uvio.Prelude.{
  ℕ, zero, suc, ◌-◌, ◌≤◌, ◌<◌, ◌≡◌, ◌≢◌, ◌⊎◌, inl, inr, refl, sym, ap, ◌∙◌, List, [], ◌∷◌, ◌++◌,
  All, append_assoc, append-nil, length, replicate, overwrite, arith, length-append, Bool, true,
  false, ◌==◌, ◌||◌, if◌then◌else◌, length-overwrite, length-replicate,
}
use uvio.Common.Result.{Result, ok, unexpected, Run, done, hang, fault}
use uvio.Io.Source.{Source}
use uvio.Io.Sink.{Sink}

-- `std::array<char, 1024> buf{}`.
abbrev pub buf_size : ℕ
buf_size = 1024

-- `buf` after a read.
unfoldable pub fill_buf : List ℕ → List ℕ
fill_buf xs = overwrite 0 xs (replicate buf_size 0)

-- `console.info` of `buf.data()` reads up to a NUL, and past the array if there is none.
abbrev pub has_nul : List ℕ → Bool
has_nul [] = false
has_nul (x ∷ xs) = (x == 0) || has_nul xs

module _ (S : Source) (K : Sink) where
  -- What `process` does with the result of a write, and with that of a read, where `go` goes on.
  abbrev after_write :
      (S.Io → K.Io → Run (S.Io × K.Io)) → S.Io → Result ℕ × K.Io → Run (S.Io × K.Io)
  after_write go r (unexpected e, w) = done (r, w)
  after_write go r (ok n, w) = go r w

  abbrev after_read :
      (S.Io → K.Io → Run (S.Io × K.Io)) → K.Io → Result (List ℕ) × S.Io → Run (S.Io × K.Io)
  after_read go w (unexpected e, r) = done (r, w)
  after_read go w (ok xs, r) =
      if has_nul (fill_buf xs) then after_write go r (K.write (fill_buf xs) w) else fault

  -- The rounds that it may take; the stream is given as what it reads from and what it writes to.
  unfoldable pub echo_process : ℕ → S.Io → K.Io → Run (S.Io × K.Io)
  unfolding fill_buf
  echo_process zero r w = hang
  echo_process (suc fuel) r w = after_read (echo_process fuel) w (S.read buf_size r)

-- What comes back for some reads: each one filled up with NULs to the size of the buffer.
abbrev pub padded : List ℕ → List ℕ
padded xs = xs ++ replicate (buf_size - length xs) 0

abbrev pub echoes : List (List ℕ) → List ℕ
echoes [] = []
echoes (xs ∷ reads) = padded xs ++ echoes reads

abbrev pub joined : List (List ℕ) → List ℕ
joined [] = []
joined (xs ∷ reads) = xs ++ joined reads

overwrite-zeros :
    (xs : List ℕ) (n : ℕ)
    → length xs ≤ n
    → overwrite 0 xs (replicate n 0) ≡ xs ++ replicate (n - length xs) 0
overwrite-zeros [] zero h = refl
overwrite-zeros [] (suc n) h =
    let all : suc n ≡ suc n - 0 = omega arith in ap (λ k. replicate k 0) all
overwrite-zeros (x ∷ xs) zero h = absurd (omega (arith, h))
overwrite-zeros (x ∷ xs) (suc n) h =
    let less : n - length xs ≡ suc n - suc (length xs) = omega arith in
    ap (λ t. x ∷ t) (overwrite-zeros xs n (omega (arith, h)) ∙ ap (λ k. xs ++ replicate k 0) less)

fill_buf-padded : (xs : List ℕ) → length xs ≤ buf_size → fill_buf xs ≡ padded xs
unfolding fill_buf
fill_buf-padded xs h = overwrite-zeros xs buf_size h

length-fill_buf : (xs : List ℕ) → length (fill_buf xs) ≡ buf_size
unfolding fill_buf
length-fill_buf xs =
    length-overwrite 0 xs (replicate buf_size 0) ∙ length-replicate {A = ℕ} buf_size 0

or_true : (b : Bool) → (b || true) ≡ true
or_true true = refl
or_true false = refl

nul_behind : (xs : List ℕ) (k : ℕ) → has_nul (xs ++ replicate (suc k) 0) ≡ true
nul_behind [] k = refl
nul_behind (x ∷ xs) k = rw (nul_behind xs k) (or_true (x == 0))

-- A read that does not fill the array leaves a NUL in it.
fill_buf-nul : (xs : List ℕ) → length xs < buf_size → has_nul (fill_buf xs) ≡ true
fill_buf-nul xs h =
    let some_left : buf_size - length xs ≡ suc (buf_size - length xs - 1) = omega arith in
    ap has_nul (fill_buf-padded xs (omega arith))
    ∙ ap (λ k. has_nul (xs ++ replicate k 0)) some_left
    ∙ nul_behind xs (buf_size - length xs - 1)

no_rest : (xs : List ℕ) → (xs ≡ []) ⊎ (xs ≢ [])
no_rest [] = inl refl
no_rest (x ∷ xs) = inr (λ e. cc e)

module _ (S : Source) (K : Sink) where
  -- How `process` ends.
  pub record Echoed (run : Run (S.Io × K.Io)) (text before : List ℕ) : Type 0 where
    pub reader : S.Io
    pub writer : K.Io
    pub reads : List (List ℕ)
    pub ends : run ≡ done (reader, writer)
    pub all : joined reads ≡ text
    pub some_bytes : All (λ xs. (0 < length xs) × (length xs ≤ buf_size)) reads
    pub sent : K.sent writer ≡ before ++ echoes reads

  -- Of less than 1024 bytes that are still to come, with a round for each and one more, from a steady
  -- stream, none of whose reads comes back with nread == 0, and onto a stream that stays open:
  -- `process` ends when the stream that it reads has ended, and no output reads past the array. It has read all that was to come, and for
  -- each read of some bytes it has sent them, filled up with NULs to 1024.
  pub echo_process_lem :
      (fuel : ℕ) (r : S.Io) (w : K.Io)
      → length (S.rest r) < fuel
      → length (S.rest r) < buf_size
      → S.Steady r
      → K.IsOpen w
      → Echoed (echo_process S K fuel r w) (S.rest r) (K.sent w)
  unfolding echo_process
  echo_process_lem zero r w h few_left st open_w = absurd (omega (arith, h))
  echo_process_lem (suc fuel) r w h few_left st open_w = elim (no_rest (S.rest r)) [
    | inl gone ↦ record {
      reader = r;
      writer = w;
      reads = [];
      ends =
          ap (after_read S K (echo_process S K fuel) w) (S.read_end buf_size r (omega arith) gone);
      all = sym gone;
      some_bytes = tt;
      sent = sym (append-nil (K.sent w));
    }
    | inr more ↦
        let (xs, r1, run, some_xs, few, cut, _, still) =
          S.read_some buf_size r st (omega arith) more in
        let size = ap length cut ∙ length-append xs (S.rest r1) in
        let nul = fill_buf-nul xs (omega (arith, few_left, size)) in
        let same = fill_buf-padded xs few in
        let (w1, run', open_w1, out) =
          K.write_open (fill_buf xs) w open_w (omega (arith, length-fill_buf xs)) in
        let rest =
          echo_process_lem fuel r1 w1 (omega (arith, h, size, some_xs))
            (omega (arith, few_left, size)) still open_w1 in
        record {
          reader = rest.reader;
          writer = rest.writer;
          reads = xs ∷ rest.reads;
          ends =
              ap (after_read S K (echo_process S K fuel) w) run
              ∙ ap
                  (λ t.
                    if t
                    then after_write S K (echo_process S K fuel) r1 (K.write (fill_buf xs) w)
                    else fault)
                  nul
              ∙ ap (after_write S K (echo_process S K fuel) r1) run'
              ∙ rest.ends;
          all = ap (λ t. xs ++ t) rest.all ∙ sym cut;
          some_bytes = ((some_xs, few), rest.some_bytes);
          sent =
              rest.sent
              ∙ ap (λ t. t ++ echoes rest.reads) (out ∙ ap (λ t. K.sent w ++ t) same)
              ∙ append_assoc (K.sent w) (padded xs) (echoes rest.reads);
        }
  ]
