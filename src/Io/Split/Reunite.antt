-- ===== src/Io/Split/Reunite.antt =====
-- A stream that is split and put together again, and halves of different streams.
use native.Mathlib.Decide.{ℕ_discrete}
use uvio.Prelude.{ℕ, suc, ◌≡◌, ◌≢◌, refl, sym, ap, ◌∙◌, true, false, none, some, ◌==◌, arith}
use uvio.Prelude.Family.{update, update_same, update_other}
use uvio.Common.Result.{ok, unexpected, done, uvio_error, reunite_error}
use uvio.Io.Split.{Heap, into_split, release, take_inner, reunite}

module _ {Io : Type 0} where
  take_inner_at :
      (a : ℕ) (io : Io) (heap : Heap Io)
      → heap.cells a ≡ some io
      → take_inner (some a) heap ≡ done (ok io, none, release (some a) heap)
  unfolding take_inner
  take_inner_at a io heap e = rw (e, take_inner) refl

  reunite_same :
      (a : ℕ) (io : Io) (heap : Heap Io)
      → (release (some a) heap).cells a ≡ some io
      → reunite (some a) (some a) heap
        ≡ done (ok io, none, none, release (some a) (release (some a) heap))
  unfolding reunite
  reunite_same a io heap e =
      let eq : (a == a) ≡ true = grind arith in
      rw eq (rw (take_inner_at a io (release (some a) heap) e) refl)

  reunite_other :
      (a b : ℕ) (heap : Heap Io)
      → a ≢ b
      → reunite (some a) (some b) heap
        ≡ done (unexpected (uvio_error reunite_error), some a, some b, heap)
  unfolding reunite
  reunite_other a b heap q = let ne : (a == b) ≡ false = grind (arith, q) in rw ne refl

  -- The first half let go leaves the stream, the second frees it.
  release_two :
      (a : ℕ) (heap : Heap Io)
      → heap.use_count a ≡ 2
      → release (some a) heap ≡ record heap { use_count = update heap.use_count a 1 }
  unfolding release
  release_two a heap e = rw e refl

  release_last :
      (a : ℕ) (heap : Heap Io)
      → heap.use_count a ≡ 1
      → release (some a) heap
        ≡ record heap { cells = update heap.cells a none; use_count = update heap.use_count a 0 }
  unfolding release
  release_last a heap e = rw e refl

  -- A stream that is split on a heap whose next address is free comes back from `reunite` of its two
  -- halves; the halves are null then, and what the heap holds at each address is what it held before.
  pub reunite-into_split :
      (io : Io) (heap : Heap Io)
      → heap.cells heap.next ≡ none
      → (heap' : Heap Io) × (reunite
            ((into_split io heap).0)
            ((into_split io heap).1)
            ((into_split io heap).2)
          ≡ done (ok io, none, none, heap'))
        × ((a : ℕ) → heap'.cells a ≡ heap.cells a)
  unfolding into_split
  reunite-into_split io heap free =
      let a = heap.next in
      let h1 : Heap Io = (into_split io heap).2 in
      let h2 : Heap Io = record h1 { use_count = update h1.use_count a 1 } in
      let h3 : Heap Io = record h2 {
        cells = update h2.cells a none;
        use_count = update h2.use_count a 0;
      } in
      let first : release (some a) h1 ≡ h2 = release_two a h1 (update_same heap.use_count a 2) in
      let last : release (some a) h2 ≡ h3 = release_last a h2 (update_same h1.use_count a 1) in
      (
        h3,
        reunite_same a io h1 (ap (λ h. h.cells a) first ∙ update_same heap.cells a (some io))
            ∙ ap (λ h. done (ok io, none, none, release (some a) h)) first
            ∙ ap (λ h. done (ok io, none, none, h)) last,
        λ j. elim (ℕ_discrete a j) [
          | yes p ↦
              sym (ap (update h2.cells a none) p)
              ∙ update_same h2.cells a none
              ∙ sym free
              ∙ ap heap.cells p
          | no q ↦ update_other h2.cells a none j q ∙ update_other heap.cells a (some io) j q
        ],
      )

  -- `reunite` of the read half of one stream and the write half of another fails with the error of
  -- `reunite` and changes neither the halves nor the heap.
  pub reunite_apart :
      (io io' : Io) (heap : Heap Io)
      → let first = into_split io heap in
        let second = into_split io' first.2 in
        reunite first.0 second.1 second.2
        ≡ done (unexpected (uvio_error reunite_error), first.0, second.1, second.2)
  unfolding into_split
  reunite_apart io io' heap =
      reunite_other heap.next (suc heap.next) ((into_split io' ((into_split io heap).2)).2)
        (omega arith)
