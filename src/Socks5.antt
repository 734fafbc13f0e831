-- ===== src/Socks5.antt =====
-- examples/socks5_server.cpp: the negotiation of a SOCKS5 proxy and the relay between two streams.
-- `char` is signed, and assertions are on, as for the websocket codec; the machine's byte order is a
-- parameter.
pub mod Requests
pub mod Relay
pub mod Methods
use uvio.Prelude.{
  ℕ, zero, suc, ◌+◌, ◌-◌, ◌*◌, ◌/◌, ◌%◌, ◌^◌, Bool, true, false, not, List, [], ◌∷◌, ◌++◌, length,
  get_or, replicate, ltb, ◌==◌, if◌then◌else◌, bit_and, bit_or,
}
use uvio.Common.Result.{
  Result, ok, unexpected, Error, uvio_error, unclassified, Run, done, hang, fault, assert,
  ◌>>=◌ as run_bind, ◌>>◌ as run_then,
}
use uvio.Common.Coro.{Coro, co_return, co_fail, ◌>>=◌, ◌>>◌, on_result}
use uvio.Common.Stoi.{to_string}
use uvio.Io.Source.{Source}
use uvio.Io.Sink.{Sink}
use uvio.Io.Ports.{ByteReader, ByteWriter}
use uvio.Net.Endian.{ByteOrder, hton16, ntoh16}
use uvio.Codec.Bytes.{read_into, write_from, flush_all}
use uvio.Codec.Websocket.{sign_extend, co_assert}

-- `Socks5Framed::Cmd` and `Request`.
pub data Cmd : Type 0 where
  connect bind udp_associate : Cmd

pub record Request : Type 0 where
  pub cmd : Cmd
  pub addr : List ℕ
  pub port : ℕ

-- `std::vector<char> buf(n)` for a `char` n: a negative one is no size.
unfoldable pub room : ℕ → Run (List ℕ)
room n = if ltb n 0x80 then done (replicate {A = ℕ} n 0) else fault

-- `ip_to_string`.
unfoldable pub ip_to_string : List ℕ → List ℕ
unfolding to_string
ip_to_string ip =
    to_string (get_or ip 0 0)
    ++ 0x2E
      ∷ (to_string (get_or ip 1 0)
          ++ 0x2E ∷ (to_string (get_or ip 2 0) ++ 0x2E ∷ to_string (get_or ip 3 0)))

module _ (order : ByteOrder) (R : ByteReader) where
  abbrev run_in : {A : Type 0} → Run A → Coro R.State A
  run_in m s = run_bind m λ a. co_return a s

  -- The two bytes of the port, read over `bytes2`.
  unfoldable pub read_port : List ℕ → Coro R.State ℕ
  unfolding read_into sign_extend ntoh16
  read_port bytes2 = do
    bytes2 ← read_into R bytes2
    let port =
        bit_or (sign_extend (get_or bytes2 0 0)) (sign_extend (get_or bytes2 1 0) * 2 ^ 8 % 2 ^ 64)
    co_return (ntoh16 order (port % 2 ^ 16))

  -- The command of the second byte.
  unfoldable pub command : ℕ → Coro R.State Cmd
  command b =
      if b == 0x01
      then co_return connect
      else if b == 0x02
      then co_return bind
      else if b == 0x03
      then co_return udp_associate
      else co_fail (uvio_error unclassified)

  -- The address and the port, by the type of the address.
  unfoldable pub read_ipv4 : Cmd → List ℕ → Coro R.State Request
  unfolding read_port ip_to_string
  read_ipv4 cmd bytes4 = do
    bytes4 ← read_into R bytes4
    port ← read_port (0 ∷ 0 ∷ [])
    co_return (record { cmd = cmd; addr = ip_to_string bytes4; port = port })

  unfoldable pub read_domain : Cmd → Coro R.State Request
  unfolding read_port room
  read_domain cmd = do
    byte ← read_into R (0 ∷ [])
    buf ← run_in (room (get_or byte 0 0))
    buf ← read_into R buf
    port ← read_port (0 ∷ 0 ∷ [])
    co_return (record { cmd = cmd; addr = buf; port = port })

  unfoldable pub read_ipv6 : Cmd → Coro R.State Request
  unfolding read_port
  read_ipv6 cmd = do
    buf ← read_into R (replicate {A = ℕ} 16 0)
    port ← read_port (0 ∷ 0 ∷ [])
    co_return (record { cmd = cmd; addr = []; port = port })

  unfoldable pub read_request : Coro R.State Request
  unfolding command read_ipv4 read_domain read_ipv6
  read_request = do
    bytes4 ← read_into R (0 ∷ 0 ∷ 0 ∷ 0 ∷ [])
    if not (get_or bytes4 0 0 == 0x05) then co_fail (uvio_error unclassified) else (do
      cmd ← command (get_or bytes4 1 0)
      co_assert (get_or bytes4 2 0 == 0x00)
      if get_or bytes4 3 0 == 0x01
          then read_ipv4 cmd bytes4
          else if get_or bytes4 3 0 == 0x03
          then read_domain cmd
          else if get_or bytes4 3 0 == 0x04
          then read_ipv6 cmd
          else co_fail (uvio_error unclassified))

  -- The first half of `auth_methods`, up to its reply.
  unfoldable pub read_methods : Coro R.State (List ℕ)
  unfolding read_into room
  read_methods = do
    bytes2 ← read_into R (0 ∷ 0 ∷ [])
    if not (get_or bytes2 0 0 == 0x05)
        then co_fail (uvio_error unclassified)
        else (do methods ← run_in (room (get_or bytes2 1 0)); read_into R methods)

module _ (order : ByteOrder) (W : ByteWriter) where
  -- The second half of `auth_methods`.
  unfoldable pub write_method : Coro W.State (Unit {0})
  unfolding write_from flush_all
  write_method = do write_from W (0x05 ∷ 0x00 ∷ []); flush_all W

  unfoldable pub write_reply : Coro W.State (Unit {0})
  unfolding write_from flush_all hton16
  write_reply = do
    let port = hton16 order 0
    write_from W (0x05 ∷ 0x00 ∷ 0x00 ∷ 0x01 ∷ [])
    write_from W (127 ∷ 0 ∷ 0 ∷ 1 ∷ [])
    write_from W (bit_and port 0xFF ∷ bit_and (port / 2 ^ 8) 0xFF ∷ [])
    flush_all W

-- `#define BUFSIZE`.
abbrev pub bufsize : ℕ
bufsize = 16 * 1024

-- `forward`: both streams when it returns.
unfoldable pub forward : (S : Source) (K : Sink) → ℕ → S.Io → K.Io → Run (S.Io × K.Io)
forward S K zero reader writer = hang
forward S K (suc fuel) reader writer =
    let (rret, reader') = S.read bufsize reader in
    elim rret [
      | unexpected e ↦ done (reader', writer)
      | ok xs ↦
          let (wret, writer') = K.write xs writer in
          let rest = forward S K fuel reader' writer' in
          elim wret [
            | unexpected e ↦ done (reader', writer')
            | ok n ↦ run_bind (assert (length xs == n)) (λ u. rest)
          ]
    ]

-- `Socks5Framed` over a reader and a writer.
module _ (order : ByteOrder) (R : ByteReader) (W : ByteWriter) where
  abbrev pub Framed : Type 0
  Framed = R.State × W.State

  abbrev pub on_reader : {A : Type 0} → Coro R.State A → Coro Framed A
  on_reader m (r, w) = run_bind (m r) λ (ret, r'). done (ret, (r', w))

  abbrev pub on_writer : {A : Type 0} → Coro W.State A → Coro Framed A
  on_writer m (r, w) = run_bind (m w) λ (ret, w'). done (ret, (r, w'))

  unfoldable pub auth_methods : Coro Framed (Unit {0})
  auth_methods = do on_reader (read_methods order R); on_writer (write_method order W)
