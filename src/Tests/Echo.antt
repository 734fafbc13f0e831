-- ===== src/Tests/Echo.antt =====
-- The echo server over a stream of three bytes, each of which comes by itself.
use uvio.Prelude.{[], ◌∷◌, arith}
use uvio.Echo.{echo_process, Echoed, echo_process_lem}
use uvio.Tests.Streams.{trickle, log}

echo_process_lem_example :
    Echoed trickle log
      (echo_process trickle log 4 (1 ∷ 2 ∷ 3 ∷ []) (9 ∷ []))
      (1 ∷ 2 ∷ 3 ∷ [])
      (9 ∷ [])
echo_process_lem_example =
    echo_process_lem trickle log 4 (1 ∷ 2 ∷ 3 ∷ []) (9 ∷ []) (omega arith) (omega arith) tt tt
