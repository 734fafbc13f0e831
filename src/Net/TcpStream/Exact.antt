-- ===== src/Net/TcpStream/Exact.antt =====
-- `TcpStream::read_exact` fills the whole span, or fails when the stream ends too early.
use uvio.Prelude.{
  ℕ, zero, suc, ◌≤◌, ◌<◌, ◌≡◌, refl, List, [], ◌∷◌, ◌++◌, length, drop, arith, length-append,
  length-drop, append_split, nil_or_not, inl, inr, sym, ap, ◌∙◌,
}
use uvio.Common.Result.{ok, unexpected, done, ◌>>=◌, uvio_error, unexpected_eof}
use mathlib.Core.Path.{subst}
use mathlib.Core.List.{nil≢cons}
use uvio.Io.Source.{Source}
use uvio.Net.TcpStream.{read_exact}

module _ (S : Source) where
  open S use {Io, rest, stop, Steady, read_some, read_end}

  -- What a filled span comes to: the stream's next bytes, and the stream behind them.
  abbrev pub Filled : ℕ → List ℕ → List ℕ → List ℕ → Io → Type 0
  Filled fuel buf xs more io =
      (io' : Io) × (read_exact S fuel buf io ≡ done (ok tt, xs, io'))
      × (rest io' ≡ more)
      × (stop io' ≡ stop io)
      × Steady io'

  -- One round that reads `ys`.
  round :
      (fuel b : ℕ) (buf ys : List ℕ) (io io' : Io)
      → S.read (length (b ∷ buf)) io ≡ (ok ys, io')
      → 0 < length ys
      → read_exact S (suc fuel) (b ∷ buf) io ≡ (
          read_exact S fuel (drop (length ys) (b ∷ buf)) io' >>= λ (ret, tail, io'').
          done (ret, ys ++ tail, io''))
  unfolding read_exact
  round fuel b buf ys io io' e pos = rw (e, read_exact) (ground arith)

  extend :
      (fuel b : ℕ) (buf ys zs more : List ℕ) (io io' : Io)
      → S.read (length (b ∷ buf)) io ≡ (ok ys, io')
      → 0 < length ys
      → stop io' ≡ stop io
      → Filled fuel (drop (length ys) (b ∷ buf)) zs more io'
      → Filled (suc fuel) (b ∷ buf) (ys ++ zs) more io
  extend fuel b buf ys zs more io io' e pos same (io'', run, r, s, still) =
      (io'', rw (round fuel b buf ys io io' e pos) (rw run), r, s ∙ same, still)

  -- Enough fuel is one round for each byte of the span. If the stream is steady, so that none of its
  -- reads comes back with nread == 0, and holds that many bytes, all of the span is written with them
  -- and the rest stays in the stream, which is still steady.
  pub socket_read_exact_lem :
      (fuel : ℕ) (buf xs more : List ℕ) (io : Io)
      → length xs ≡ length buf
      → length buf ≤ fuel
      → Steady io
      → rest io ≡ xs ++ more
      → Filled fuel buf xs more io
  unfolding read_exact
  socket_read_exact_lem fuel [] [] more io l f st e = (io, refl, e, refl, st)
  socket_read_exact_lem fuel [] (x ∷ xs) more io l f st e = absurd (omega arith)
  socket_read_exact_lem fuel (b ∷ buf) [] more io l f st e = absurd (omega arith)
  socket_read_exact_lem zero (b ∷ buf) (x ∷ xs) more io l f st e = absurd (omega arith)
  socket_read_exact_lem (suc fuel) (b ∷ buf) (x ∷ xs) more io l f st e =
      let (ys, io', got, pos, short, split, same, still) =
        read_some (length (b ∷ buf)) io st (omega arith) (λ z. nil≢cons (sym z ∙ e)) in
      let (zs, cut, left) =
        append_split (x ∷ xs) ys more (rest io') (sym e ∙ split) (omega arith) in
      let m = ap length cut ∙ length-append ys zs in
      subst (λ l. Filled (suc fuel) (b ∷ buf) l more io) (sym cut)
        (extend fuel b buf ys zs more io io' got pos same (
          socket_read_exact_lem fuel (drop (length ys) (b ∷ buf)) zs more io'
            (omega (arith, length-drop (length ys) (b ∷ buf)))
            (omega (arith, length-drop (length ys) (b ∷ buf))) still (sym left)))

  -- A span that stays short: the error that ended the stream, which is then empty.
  abbrev pub Short : ℕ → List ℕ → Io → Type 0
  Short fuel buf io =
      (dst : List ℕ) × (io' : Io) × (read_exact S fuel buf io
        ≡ done (unexpected (stop io), dst, io'))
      × (rest io' ≡ [])
      × (length dst ≡ length buf)

  ended :
      (fuel b : ℕ) (buf : List ℕ) (io : Io)
      → rest io ≡ []
      → read_exact S (suc fuel) (b ∷ buf) io ≡ done (unexpected (stop io), b ∷ buf, io)
  unfolding read_exact
  ended fuel b buf io h =
      let e = read_end (length (b ∷ buf)) io (omega arith) h in
      rw (e, read_exact) (λ i. done (unexpected (stop io), b ∷ buf, (e i).1))

  extend-Short :
      (fuel b : ℕ) (buf ys : List ℕ) (io io' : Io)
      → S.read (length (b ∷ buf)) io ≡ (ok ys, io')
      → 0 < length ys
      → length ys ≤ length (b ∷ buf)
      → stop io' ≡ stop io
      → Short fuel (drop (length ys) (b ∷ buf)) io'
      → Short (suc fuel) (b ∷ buf) io
  extend-Short fuel b buf ys io io' e pos fits same (dst, io'', run, r, l) = (
    ys ++ dst,
    io'',
    rw (round fuel b buf ys io io' e pos) (rw (run, same)),
    r,
    omega (arith, length-append ys dst, length-drop (length ys) (b ∷ buf)),
  )

  -- If the stream is steady and holds fewer bytes than the span, the result is the error that ended
  -- it, and the stream is empty.
  pub socket_read_exact-Short :
      (fuel : ℕ) (buf : List ℕ) (io : Io)
      → length (rest io) < length buf
      → length buf ≤ fuel
      → Steady io
      → Short fuel buf io
  socket_read_exact-Short fuel [] io l f st = absurd (omega arith)
  socket_read_exact-Short zero (b ∷ buf) io l f st = absurd (omega arith)
  socket_read_exact-Short (suc fuel) (b ∷ buf) io l f st = elim (nil_or_not (rest io)) [
    | inl none_left ↦ (b ∷ buf, io, ended fuel b buf io none_left, none_left, refl)
    | inr some_left ↦
        let (ys, io', got, pos, short, split, same, still) =
          read_some (length (b ∷ buf)) io st (omega arith) some_left in
        let m = ap length split ∙ length-append ys (rest io') in
        extend-Short fuel b buf ys io io' got pos short same (
          socket_read_exact-Short fuel (drop (length ys) (b ∷ buf)) io'
            (omega (arith, length-drop (length ys) (b ∷ buf)))
            (omega (arith, length-drop (length ys) (b ∷ buf))) still)
  ]

  -- A read that comes back with nread == 0 in front of the end: `read_exact` gives up with
  -- UnexpectedEOF, though the stream has not ended.
  socket_read_exact-zero :
      (fuel b : ℕ) (buf : List ℕ) (io io' : Io)
      → S.read (length (b ∷ buf)) io ≡ (ok [], io')
      → read_exact S (suc fuel) (b ∷ buf) io
        ≡ done (unexpected (uvio_error unexpected_eof), b ∷ buf, io')
  unfolding read_exact
  socket_read_exact-zero fuel b buf io io' e =
      rw (e, read_exact) (λ i. done (unexpected (uvio_error unexpected_eof), b ∷ buf, (e i).1))
