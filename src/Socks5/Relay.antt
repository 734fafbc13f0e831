-- ===== src/Socks5/Relay.antt =====
-- `Socks5Framed::forward`: what comes in at one stream goes out at the other.
use uvio.Prelude.{
  ℕ, zero, suc, ◌<◌, ◌≡◌, sym, ap, ◌∙◌, inl, inr, true, List, [], ◌++◌, append-nil, append_assoc,
  length, ◌==◌, arith, length-append, nil_or_not,
}
use uvio.Common.Result.{done, ok, unexpected}
use uvio.Io.Source.{Source}
use uvio.Io.Sink.{Sink}
use uvio.Socks5.{bufsize, forward}

module _ (S : Source) (K : Sink) where
  forward_end :
      (fuel : ℕ) (r r' : S.Io) (w : K.Io)
      → S.read bufsize r ≡ (unexpected (S.stop r), r')
      → forward S K (suc fuel) r w ≡ done (r', w)
  unfolding forward
  forward_end fuel r r' w e = rw (e, forward) (λ i. done ((e i).1, w))

  forward_round :
      (fuel : ℕ) (xs : List ℕ) (r r' : S.Io) (w w' : K.Io)
      → S.read bufsize r ≡ (ok xs, r')
      → K.write xs w ≡ (ok (length xs), w')
      → forward S K (suc fuel) r w ≡ forward S K fuel r' w'
  unfolding forward
  forward_round fuel xs r r' w w' e e' =
      let t : (length xs == length xs) ≡ true = grind arith in
      rw (e, forward) (rw e' (rw t (λ i. forward S K fuel ((e i).1) ((e' i).1))))

  -- With a round of fuel for each byte that is still to come and one more, from a steady stream, none
  -- of whose reads comes back with nread == 0, onto a stream that stays open: `forward` returns, no assertion fails, and all that was still to come has been sent, in
  -- order and behind what was sent before.
  pub forward_lem :
      (fuel : ℕ) (r : S.Io) (w : K.Io)
      → K.IsOpen w
      → S.Steady r
      → length (S.rest r) < fuel
      → (r' : S.Io) × (w' : K.Io) × (forward S K fuel r w ≡ done (r', w'))
        × (S.rest r' ≡ [])
        × (K.sent w' ≡ K.sent w ++ S.rest r)
        × K.IsOpen w'
  forward_lem zero r w o st h = absurd (omega arith)
  forward_lem (suc fuel) r w o st h = elim (nil_or_not (S.rest r)) [
    | inl none_left ↦ (
      r,
      w,
      forward_end fuel r r w (S.read_end bufsize r (omega arith) none_left),
      none_left,
      sym (ap (λ t. K.sent w ++ t) none_left ∙ append-nil (K.sent w)),
      o,
    )
    | inr more ↦
        let (xs, r1, read, some, fits, cut, _, still) =
          S.read_some bufsize r st (omega arith) more in
        let (w1, written, o1, sent1) = K.write_open xs w o some in
        let (r2, w2, run, empty, sent2, o2) =
          forward_lem fuel r1 w1 o1 still
            (omega (arith, ap length cut, length-append xs (S.rest r1))) in
        (
          r2,
          w2,
          forward_round fuel xs r r1 w w1 read written ∙ run,
          empty,
          sent2
              ∙ ap (λ t. t ++ S.rest r1) sent1
              ∙ append_assoc (K.sent w) xs (S.rest r1)
              ∙ ap (λ t. K.sent w ++ t) (sym cut),
          o2,
        )
  ]
