-- ===== src/Tests/Split.antt =====
-- A stream split on an empty heap, and the read half of one with the write half of another.
use uvio.Prelude.{ℕ, ◌≡◌, refl, none, some}
use uvio.Common.Result.{ok, unexpected, done, uvio_error, reunite_error}
use uvio.Io.Split.{Heap, into_split, reunite}
use uvio.Io.Split.Reunite.{reunite-into_split}

abbrev blank : Heap ℕ
blank = record { next = 5; cells = λ a. none; use_count = λ a. 0 }

abbrev stream : ℕ
stream = 7

reunite-into_split_example :
    (heap' : Heap ℕ) × (reunite
        ((into_split stream blank).0)
        ((into_split stream blank).1)
        ((into_split stream blank).2)
      ≡ done (ok stream, none, none, heap'))
    × ((a : ℕ) → heap'.cells a ≡ none)
reunite-into_split_example = reunite-into_split stream blank refl

mixed :
    reunite (some 5) (some 6) ((into_split 8 ((into_split stream blank).2)).2)
    ≡ done (
      unexpected (uvio_error reunite_error),
      some 5,
      some 6,
      (into_split 8 ((into_split stream blank).2)).2,
    )
unfolding reunite
mixed = refl
