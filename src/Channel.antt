-- ===== src/Channel.antt =====
-- examples/tcp_channel.hpp: `Channel`, whose codec is the LengthDelimitedCodec, and the loops of
-- examples/channel_client.cpp and examples/channel_server.cpp, which are the same but for the text.
use uvio.Prelude.{ℕ, zero, suc, List, [], ◌∷◌, ◌++◌}
use uvio.Common.Result.{ok, unexpected, Run, done, fault, ◌>>=◌ as run_bind}
use uvio.Common.Coro.{Coro}
use uvio.Common.Stoi.{to_string}
use uvio.Io.Ports.{ByteReader, ByteWriter}
use uvio.Net.Endian.{ByteOrder}
use uvio.Codec.LengthDelimited.{decode, encode}

-- `Channel::Recv` and `Channel::Send`.
unfoldable pub recv_message : ByteOrder → (R : ByteReader) → Coro R.State (List ℕ)
unfolding decode
recv_message order R = decode order R []

unfoldable pub send_message : ByteOrder → (W : ByteWriter) → List ℕ → Coro W.State (Unit {0})
unfolding encode
send_message order W message = encode order W message

-- "client message round " and "server message round ".
abbrev pub client_round : List ℕ
client_round =
    0x63 ∷ 0x6C ∷ 0x69 ∷ 0x65 ∷ 0x6E ∷ 0x74 ∷ 0x20 ∷ 0x6D ∷ 0x65 ∷ 0x73 ∷ 0x73 ∷ 0x61 ∷ 0x67 ∷ 0x65
    ∷ 0x20 ∷ 0x72 ∷ 0x6F ∷ 0x75 ∷ 0x6E ∷ 0x64 ∷ 0x20 ∷ []

abbrev pub server_round : List ℕ
server_round =
    0x73 ∷ 0x65 ∷ 0x72 ∷ 0x76 ∷ 0x65 ∷ 0x72 ∷ 0x20 ∷ 0x6D ∷ 0x65 ∷ 0x73 ∷ 0x73 ∷ 0x61 ∷ 0x67 ∷ 0x65
    ∷ 0x20 ∷ 0x72 ∷ 0x6F ∷ 0x75 ∷ 0x6E ∷ 0x64 ∷ 0x20 ∷ []

-- `std::format("... message round {}", i)`.
unfoldable pub round_message : List ℕ → ℕ → List ℕ
unfolding to_string
round_message round i = round ++ to_string i

module _ (order : ByteOrder) (R : ByteReader) (W : ByteWriter) where
  -- The rounds that are left, from the `i`-th on. `value()` of an error throws.
  unfoldable pub talk_rounds : List ℕ → ℕ → ℕ → R.State → W.State → Run (R.State × W.State)
  unfolding recv_message send_message round_message
  talk_rounds round zero i reader writer = done (reader, writer)
  talk_rounds round (suc n) i reader writer =
      run_bind (send_message order W (round_message round i) writer) λ (sent, writer').
        run_bind (recv_message order R reader) λ (ret, reader'). elim ret [
          | unexpected e ↦ fault
          | ok message ↦ talk_rounds round n (suc i) reader' writer'
        ]

  -- `client` behind the connect, and `process` of the server.
  unfoldable pub client_talk : R.State → W.State → Run (R.State × W.State)
  unfolding talk_rounds
  client_talk = talk_rounds client_round 64 0

  unfoldable pub server_talk : R.State → W.State → Run (R.State × W.State)
  unfolding talk_rounds
  server_talk = talk_rounds server_round 64 0
