-- ===== src/Codec/Bytes.antt =====
-- What the codecs share: single bytes and messages read from a reader and written to a writer.
use uvio.Prelude.{
  ℕ, ◌-◌, ◌^◌, ◌<◌, ◌≡◌, refl, sym, ap, ◌∙◌, List, [], ◌∷◌, ◌++◌, append_assoc, length, get_or,
  take, replicate, length-append, length-take, length-replicate, arith,
}
use uvio.Common.Result.{Result, ok, unexpected, Run, done, ◌>>=◌ as run_bind}
use uvio.Common.Coro.{Coro, co_return, ◌>>=◌}
use uvio.Io.Ports.{ByteReader, ByteWriter}

-- `std::string::resize`.
unfoldable pub resize : ℕ → List ℕ → List ℕ
resize n xs = take n xs ++ replicate (n - length xs) 0

pub length-resize : (n : ℕ) (xs : List ℕ) → length (resize n xs) ≡ n
unfolding resize
length-resize n xs = omega (
  arith,
  length-append (take n xs) (replicate (n - length xs) 0),
  length-take n xs,
  length-replicate {A = ℕ} (n - length xs) 0,
)

module _ (R : ByteReader) where
  open R use {State, read_exact, IsReady, pending, read_exact_law}

  -- A span filled by `read_exact`; on an error the coroutine returns it.
  unfoldable pub read_span : List ℕ → Coro State (List ℕ)
  read_span buf s = run_bind (read_exact buf s) λ (ret, dst, s'). elim ret [
    | unexpected e ↦ done (unexpected e, s')
    | ok u ↦ done (ok dst, s')
  ]

  -- `std::array<char, 1> bytes{}` read, and its byte.
  unfoldable pub read_byte : Coro State ℕ
  unfolding read_span
  read_byte = do bytes ← read_span (0 ∷ []); co_return (get_or bytes 0 0)

  -- A run that succeeds with `a` and leaves `more` to be read.
  abbrev pub Reads {ℓ} : {A : Type ℓ} → Run (Result A × State) → A → List ℕ → Type ℓ
  Reads run a more = (s' : State) × (run ≡ done (ok a, s')) × IsReady s' × (pending s' ≡ more)

  pub read_span_lem :
      (buf xs more : List ℕ) (s : State)
      → IsReady s
      → length xs ≡ length buf
      → pending s ≡ xs ++ more
      → Reads (read_span buf s) xs more
  unfolding read_span
  read_span_lem buf xs more s h l e =
      let (s', run, h', p) = read_exact_law buf xs more s h l e in (s', rw run, h', p)

  pub read_byte_lem :
      (x : ℕ) (more : List ℕ) (s : State)
      → IsReady s
      → pending s ≡ x ∷ more
      → Reads (read_byte s) x more
  unfolding read_byte
  read_byte_lem x more s h e =
      let (s', run, h', p) = read_exact_law (0 ∷ []) (x ∷ []) more s h refl e in (s', rw run, h', p)

  -- `co_await reader.read_exact(buf);` with its result dropped: what the span holds then.
  unfoldable pub read_into : List ℕ → Coro State (List ℕ)
  read_into buf s = run_bind (read_exact buf s) λ (ret, dst, s'). co_return dst s'

  pub read_into_lem :
      (buf xs more : List ℕ) (s : State)
      → IsReady s
      → length xs ≡ length buf
      → pending s ≡ xs ++ more
      → Reads (read_into buf s) xs more
  unfolding read_into
  read_into_lem buf xs more s h l e =
      let (s', run, h', p) = read_exact_law buf xs more s h l e in (s', rw run refl, h', p)

module _ (W : ByteWriter) where
  open W use {State, write, flush, IsReady, written, sent, write_law, flush_law}

  -- `if (auto ret = co_await writer.write(bytes); !ret) co_return ...`, and the same of `flush`.
  unfoldable pub write_span : List ℕ → Coro State (Unit {0})
  write_span buf s =
      run_bind (write buf s)
        λ (ret, s'). elim ret [ unexpected e ↦ done (unexpected e, s') | ok n ↦ done (ok tt, s') ]

  -- A run that succeeds and adds `bytes` to what was written.
  abbrev pub Writes : Coro State (Unit {0}) → List ℕ → State → Type 0
  Writes m bytes s =
      (s' : State) × (m s ≡ done (ok tt, s')) × IsReady s' × (written s' ≡ written s ++ bytes)

  pub write_span_lem :
      (buf : List ℕ) (s : State) → length buf < 2 ^ 31 → IsReady s → Writes (write_span buf) buf s
  unfolding write_span
  write_span_lem buf s small h =
      let (n, s', run, h', all) = write_law buf s small h in (s', rw run, h', all)

  -- Two runs in a row.
  pub Writes-seq :
      (m k : Coro State (Unit {0})) (xs ys : List ℕ) (s : State)
      → Writes m xs s
      → ((s' : State) → IsReady s' → Writes k ys s')
      → Writes (m >>= λ _. k) (xs ++ ys) s
  Writes-seq m k xs ys s (s', run, h, all) next =
      let (s'', run', h', all') = next s' h in
      (s'', rw run run', h', all' ∙ ap (λ t. t ++ ys) all ∙ append_assoc (written s) xs ys)

  -- `co_await writer.write(bytes);` and `co_await writer.flush();` with their results dropped.
  unfoldable pub write_from : List ℕ → Coro State (Unit {0})
  write_from bytes s = run_bind (write bytes s) λ (ret, s'). co_return tt s'

  unfoldable pub flush_all : Coro State (Unit {0})
  flush_all s = run_bind (flush s) λ (ret, s'). co_return tt s'

  pub write_from_lem :
      (bytes : List ℕ) (s : State)
      → length bytes < 2 ^ 31
      → IsReady s
      → Writes (write_from bytes) bytes s
  unfolding write_from
  write_from_lem bytes s small h =
      let (n, s', run, h', all) = write_law bytes s small h in (s', rw run refl, h', all)

  pub flush_all_lem :
      (s : State)
      → IsReady s
      → (s' : State) × (flush_all s ≡ done (ok tt, s'))
        × IsReady s'
        × (sent s' ≡ written s)
        × (written s' ≡ sent s')
  unfolding flush_all
  flush_all_lem s h =
      let (s', run, h', kept, gone) = flush_law s h in (s', rw run refl, h', gone, kept ∙ sym gone)
