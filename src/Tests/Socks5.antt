-- ===== src/Tests/Socks5.antt =====
-- The SOCKS5 proxy at a client that asks for port 80 of "ab", and at one that asks for port 443.
use uvio.Prelude.{ℕ, ◌≡◌, refl, List, [], ◌∷◌, ◌++◌, arith}
use uvio.Common.Result.{ok, done}
use uvio.Net.Endian.{little_endian}
use uvio.Codec.Bytes.{Reads}
use uvio.Codec.Websocket.Length.{heard}
use uvio.Io.BufWriter.{BufWriter}
use uvio.Io.BufWriter.Order.{IsReady}
use uvio.Tests.Streams.{trickle, log, writer}
use uvio.Tests.Codec.{fresh_writer, fresh_writer-IsReady}
use uvio.Tests.Texts.{list_bytes}
use uvio.Socks5.{connect, Request, forward, read_request, auth_methods}
use uvio.Socks5.Requests.{domain, request_bytes, read_request_lem}
use uvio.Socks5.Relay.{forward_lem}
use uvio.Socks5.Methods.{greeting, method_bytes, auth_methods_lem}

-- Port 443 is heard as it is, and of port 33000 the lower byte is lost.
port_443 : heard 443 ≡ 443
port_443 = refl

port_33000 : heard 33000 ≡ 33023
port_33000 = refl

abbrev name : List ℕ
name = 0x61 ∷ 0x62 ∷ []

abbrev named : Request
named = record { cmd = connect; addr = name; port = 80 }

-- A request for "ab", and a byte behind it that stays to be read.
read_request_lem_example :
    Reads list_bytes
      (read_request little_endian list_bytes
        (request_bytes connect (domain name) 80 ++ (0x21 ∷ [])))
      named
      (0x21 ∷ [])
read_request_lem_example =
    read_request_lem list_bytes connect (domain name) 80 (0x21 ∷ [])
      (request_bytes connect (domain name) 80 ++ (0x21 ∷ [])) (omega arith) (omega arith) tt refl

-- Three bytes that come in one at a time, behind one that was sent before.
forward_lem_example :
    (r' : List ℕ) × (w' : List ℕ) × (forward trickle log 4 (1 ∷ 2 ∷ 3 ∷ []) (9 ∷ [])
      ≡ done (r', w'))
    × (r' ≡ [])
    × (w' ≡ 9 ∷ 1 ∷ 2 ∷ 3 ∷ [])
    × Unit {0}
forward_lem_example = forward_lem trickle log 4 (1 ∷ 2 ∷ 3 ∷ []) (9 ∷ []) tt tt (omega arith)

-- A greeting that offers one method, and a byte behind it.
abbrev greeted : List ℕ
greeted = greeting (0x00 ∷ []) ++ (0x21 ∷ [])

auth_methods_lem_example :
    (r' : List ℕ) × (w' : BufWriter log) × (auth_methods little_endian list_bytes writer
        (greeted, fresh_writer)
      ≡ done (ok tt, (r', w')))
    × Unit {0}
    × (r' ≡ 0x21 ∷ [])
    × IsReady log w'
    × (w'.io ≡ method_bytes)
    × ((writer).written w' ≡ (writer).sent w')
auth_methods_lem_example =
    auth_methods_lem list_bytes writer (0x00 ∷ []) (0x21 ∷ []) greeted fresh_writer (omega arith) tt
      refl fresh_writer-IsReady
