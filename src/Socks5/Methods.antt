-- ===== src/Socks5/Methods.antt =====
-- `auth_methods` and `write_reply`: what the proxy answers to a greeting and to a request.
use uvio.Prelude.{
  ℕ, ◌^◌, ◌<◌, ◌≡◌, refl, sym, ap, ◌∙◌, List, [], ◌∷◌, ◌++◌, append_assoc, length, replicate,
  length-replicate, arith,
}
use uvio.Common.Result.{done, ok}
use uvio.Common.Coro.{Coro, ◌>>=◌}
use uvio.Io.Ports.{ByteReader, ByteWriter}
use uvio.Net.Endian.{little_endian, hton16, bswap_16}
use uvio.Codec.Bytes.{Reads, Writes, read_into_lem, write_from, write_from_lem, flush_all}
use uvio.Socks5.{read_methods, write_method, write_reply, auth_methods}
use uvio.Socks5.Requests.{room_lem}

-- The greeting of a client that offers some methods.
abbrev pub greeting : List ℕ → List ℕ
greeting methods = 0x05 ∷ length methods ∷ methods

-- What the proxy answers to a greeting and to a request.
abbrev pub method_bytes : List ℕ
method_bytes = 0x05 ∷ 0x00 ∷ []

abbrev pub reply_bytes : List ℕ
reply_bytes = 0x05 ∷ 0x00 ∷ 0x00 ∷ 0x01 ∷ 127 ∷ 0 ∷ 0 ∷ 1 ∷ 0 ∷ 0 ∷ []

module _ (R : ByteReader) where
  -- `auth_methods` takes up the greeting.
  read_methods_lem :
      (methods more : List ℕ) (s : R.State)
      → length methods < 0x80
      → R.IsReady s
      → R.pending s ≡ greeting methods ++ more
      → Reads R (read_methods little_endian R s) methods more
  unfolding read_methods
  read_methods_lem methods more s short h e =
      let size = length methods in
      let (s1, run1, h1, p1) =
        read_into_lem R (0 ∷ 0 ∷ []) (0x05 ∷ size ∷ []) (methods ++ more) s h refl e in
      let (s2, run2, h2, p2) =
        read_into_lem R (replicate {A = ℕ} size 0) methods more s1 h1
          (sym (length-replicate {A = ℕ} size 0)) p1 in
      (s2, rw run1 (rw (room_lem size short) run2), h2, p2)

module _ (W : ByteWriter) where
  -- A run that adds `bytes` to what was written and sends all of it.
  abbrev pub Sends : Coro W.State (Unit {0}) → List ℕ → W.State → Type 0
  Sends m bytes s =
      (s' : W.State) × (m s ≡ done (ok tt, s'))
      × W.IsReady s'
      × (W.written s' ≡ W.written s ++ bytes)
      × (W.sent s' ≡ W.written s ++ bytes)

  Sends-flush :
      (m : Coro W.State (Unit {0})) (bytes : List ℕ) (s : W.State)
      → Writes W m bytes s
      → Sends (m >>= λ u. flush_all W) bytes s
  unfolding flush_all
  Sends-flush m bytes s (s1, run1, h1, all1) =
      let (s2, run2, h2, all2, gone) = W.flush_law s1 h1 in
      (s2, rw run1 (rw run2 refl), h2, all2 ∙ all1, gone ∙ all1)

  Sends-then :
      (m k : Coro W.State (Unit {0})) (xs ys : List ℕ) (s : W.State)
      → Writes W m xs s
      → ((s' : W.State) → W.IsReady s' → Sends k ys s')
      → Sends (m >>= λ u. k) (xs ++ ys) s
  Sends-then m k xs ys s (s1, run1, h1, all1) next =
      let (s2, run2, h2, all2, gone) = next s1 h1 in
      let both = ap (λ t. t ++ ys) all1 ∙ append_assoc (W.written s) xs ys in
      (s2, rw run1 run2, h2, all2 ∙ both, gone ∙ both)

  Sends-write :
      (bytes : List ℕ) (s : W.State)
      → length bytes < 2 ^ 31
      → W.IsReady s
      → Sends (write_from W bytes >>= λ u. flush_all W) bytes s
  Sends-write bytes s small h =
      Sends-flush (write_from W bytes) bytes s (write_from_lem W bytes s small h)

  write_method_lem :
      (s : W.State) → W.IsReady s → Sends (write_method little_endian W) method_bytes s
  unfolding write_method
  write_method_lem s h = Sends-write method_bytes s (omega arith) h

  -- `write_reply` sends the reply.
  pub write_reply_lem :
      (s : W.State) → W.IsReady s → Sends (write_reply little_endian W) reply_bytes s
  unfolding write_reply hton16 bswap_16
  write_reply_lem s h =
      let last : Coro W.State (Unit {0}) =
        λ s'. (write_from W (0 ∷ 0 ∷ []) >>= λ u. flush_all W) s' in
      Sends-then (write_from W (0x05 ∷ 0x00 ∷ 0x00 ∷ 0x01 ∷ []))
        (λ s'. (write_from W (127 ∷ 0 ∷ 0 ∷ 1 ∷ []) >>= λ u. last) s')
        (0x05 ∷ 0x00 ∷ 0x00 ∷ 0x01 ∷ []) (127 ∷ 0 ∷ 0 ∷ 1 ∷ 0 ∷ 0 ∷ []) s
        (write_from_lem W (0x05 ∷ 0x00 ∷ 0x00 ∷ 0x01 ∷ []) s (omega arith) h)
        λ s1 h1.
          Sends-then (write_from W (127 ∷ 0 ∷ 0 ∷ 1 ∷ [])) last (127 ∷ 0 ∷ 0 ∷ 1 ∷ []) (0 ∷ 0 ∷ [])
            s1 (write_from_lem W (127 ∷ 0 ∷ 0 ∷ 1 ∷ []) s1 (omega arith) h1)
            λ s2 h2. Sends-write (0 ∷ 0 ∷ []) s2 (omega arith) h2

module _ (R : ByteReader) (W : ByteWriter) where
  auth_methods_at :
      (methods : List ℕ) (r r' : R.State) (w w' : W.State)
      → read_methods little_endian R r ≡ done (ok methods, r')
      → write_method little_endian W w ≡ done (ok tt, w')
      → auth_methods little_endian R W (r, w) ≡ done (ok tt, (r', w'))
  unfolding auth_methods
  auth_methods_at methods r r' w w' read wrote = rw read (rw wrote refl)

  -- From a ready reader that has a greeting of less than 128 methods pending, and with a ready writer:
  -- `auth_methods` succeeds, leaves what follows the greeting to be read, and has sent version 5 and
  -- method 0 behind all that was written before, so that nothing stays buffered.
  pub auth_methods_lem :
      (methods more : List ℕ) (r : R.State) (w : W.State)
      → length methods < 0x80
      → R.IsReady r
      → R.pending r ≡ greeting methods ++ more
      → W.IsReady w
      → (r' : R.State) × (w' : W.State) × (auth_methods little_endian R W (r, w)
          ≡ done (ok tt, (r', w')))
        × R.IsReady r'
        × (R.pending r' ≡ more)
        × W.IsReady w'
        × (W.sent w' ≡ W.written w ++ method_bytes)
        × (W.written w' ≡ W.sent w')
  auth_methods_lem methods more r w short hr e hw =
      let (r', run, k, p) = read_methods_lem R methods more r short hr e in
      let (w', run', k', all, out) = write_method_lem W w hw in
      (r', w', auth_methods_at methods r r' w w' run run', k, p, k', out, all ∙ sym out)
