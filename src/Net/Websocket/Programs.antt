-- ===== src/Net/Websocket/Programs.antt =====
-- examples/websocket_server.cpp and examples/websocket_client.cpp: `process_message` of both programs,
-- which they hand to the server and to the client.
use uvio.Prelude.{ℕ, zero, suc, List, [], ◌∷◌, ◌++◌, true, false}
use uvio.Common.Result.{Run, ok, unexpected, done, fault, ◌>>=◌ as run_bind}
use uvio.Common.Stoi.{to_string}
use uvio.Io.Ports.{ByteReader, ByteWriter}
use uvio.Net.Endian.{ByteOrder}
use uvio.Net.Websocket.{recv, send, close_connection}

-- `std::format("test message {} from client", i)`.
abbrev pub before_number : List ℕ
before_number =
    0x74 ∷ 0x65 ∷ 0x73 ∷ 0x74 ∷ 0x20 ∷ 0x6D ∷ 0x65 ∷ 0x73 ∷ 0x73 ∷ 0x61 ∷ 0x67 ∷ 0x65 ∷ 0x20 ∷ []

abbrev pub behind_number : List ℕ
behind_number =
    0x20 ∷ 0x66 ∷ 0x72 ∷ 0x6F ∷ 0x6D ∷ 0x20 ∷ 0x63 ∷ 0x6C ∷ 0x69 ∷ 0x65 ∷ 0x6E ∷ 0x74 ∷ []

unfoldable pub test_message : ℕ → List ℕ
unfolding to_string
test_message i = before_number ++ (to_string i ++ behind_number)

module _ (order : ByteOrder) (R : ByteReader) (W : ByteWriter) where
  -- A program on the framed connection that its caller hands it.
  abbrev pub Program : Type 0
  Program = R.State → W.State → Run (R.State × W.State)

  -- The rounds of the server that are left, and `close`. `value()` of an error throws.
  unfoldable pub echo_rounds : ℕ → Program
  unfolding recv send close_connection
  echo_rounds zero reader writer =
      run_bind (close_connection order W false writer) λ (closed, writer'). done (reader, writer')
  echo_rounds (suc n) reader writer = run_bind (recv order R false reader) λ (ret, reader').
      elim ret [
        | unexpected e ↦ fault
        | ok msg ↦
            run_bind (send order W false msg writer)
              λ (sent, writer'). echo_rounds n reader' writer'
      ]

  -- The rounds of the client from the `i`-th on, and `close`.
  unfoldable pub test_rounds : ℕ → ℕ → Program
  unfolding recv send close_connection test_message
  test_rounds zero i reader writer =
      run_bind (close_connection order W true writer) λ (closed, writer'). done (reader, writer')
  test_rounds (suc n) i reader writer =
      run_bind (send order W true (test_message i) writer) λ (sent, writer').
        run_bind (recv order R true reader) λ (ret, reader'). elim ret [
          | unexpected e ↦ fault
          | ok msg ↦ test_rounds n (suc i) reader' writer'
        ]

  unfoldable pub server_process : Program
  unfolding echo_rounds
  server_process = echo_rounds 64

  unfoldable pub client_process : Program
  unfolding test_rounds
  client_process = test_rounds 64 0
