-- ===== src/Socks5/Requests.antt =====
-- `Socks5Framed::read_request` on the requests that a client may send.
use uvio.Prelude.{
  ℕ, ◌*◌, ◌/◌, ◌%◌, ◌^◌, ◌<◌, ◌≡◌, refl, sym, ap, ◌∙◌, true, List, [], ◌∷◌, ◌++◌, append_assoc,
  length, replicate, ltb, arith, length-replicate,
}
use uvio.Prelude.Bits.{bit_or_comm}
use uvio.Common.Result.{ok, done}
use uvio.Common.Coro.{Coro}
use uvio.Io.Ports.{ByteReader}
use uvio.Net.Endian.{little_endian}
use uvio.Codec.Bytes.{Reads, read_into, read_into_lem}
use uvio.Codec.Websocket.{sign_extend}
use uvio.Codec.Websocket.Length.{heard, heard_lem}
use uvio.Socks5.{
  Cmd, connect, bind, udp_associate, Request, room, ip_to_string, read_port, command, read_ipv4,
  read_domain, read_ipv6, read_request,
}

-- The address that a client may name, by RFC 1928.
pub data Address : Type 0 where
  ipv4 : (a b c d : ℕ) → Address
  domain : List ℕ → Address
  ipv6 : List ℕ → Address

-- The type of an address and its bytes.
abbrev pub atyp : Address → ℕ
atyp (ipv4 a b c d) = 0x01
atyp (domain name) = 0x03
atyp (ipv6 ip) = 0x04

abbrev pub address_bytes : Address → List ℕ
address_bytes (ipv4 a b c d) = a ∷ b ∷ c ∷ d ∷ []
address_bytes (domain name) = length name ∷ name
address_bytes (ipv6 ip) = ip

-- The lengths that come through: a name of less than 128 bytes, an IPv6 address of sixteen.
abbrev pub Fits : Address → Type 0
Fits (ipv4 a b c d) = Unit {0}
Fits (domain name) = length name < 0x80
Fits (ipv6 ip) = length ip ≡ 16

-- What the proxy keeps of an address: of an IPv6 address nothing.
abbrev pub kept : Address → List ℕ
kept (ipv4 a b c d) = ip_to_string (a ∷ b ∷ c ∷ d ∷ [])
kept (domain name) = name
kept (ipv6 ip) = []

abbrev pub cmd_byte : Cmd → ℕ
cmd_byte connect = 0x01
cmd_byte bind = 0x02
cmd_byte udp_associate = 0x03

abbrev pub port_bytes : ℕ → List ℕ
port_bytes n = n / 2 ^ 8 ∷ n % 2 ^ 8 ∷ []

-- The bytes of a request.
abbrev pub request_bytes : Cmd → Address → ℕ → List ℕ
request_bytes cmd address port =
    0x05 ∷ cmd_byte cmd ∷ 0x00 ∷ atyp address ∷ (address_bytes address ++ port_bytes port)

pub room_lem : (n : ℕ) → n < 0x80 → room n ≡ done (replicate {A = ℕ} n 0)
unfolding room
room_lem n h = let t : ltb n 0x80 ≡ true = grind arith in rw t refl

module _ (R : ByteReader) where
  read_port_lem :
      (n : ℕ) (more : List ℕ) (s : R.State)
      → n < 2 ^ 16
      → R.IsReady s
      → R.pending s ≡ port_bytes n ++ more
      → Reads R (read_port little_endian R (0 ∷ 0 ∷ []) s) (heard n) more
  unfolding read_port
  read_port_lem n more s fits h e =
      let (s', run, h', p) = read_into_lem R (0 ∷ 0 ∷ []) (port_bytes n) more s h refl e in
      (
        s',
        rw run (
            rw
              (
                bit_or_comm (sign_extend (n / 2 ^ 8)) (sign_extend (n % 2 ^ 8) * 2 ^ 8 % 2 ^ 64),
                heard_lem n fits,
              )
              refl),
        h',
        p,
      )

  command_lem :
      (cmd : Cmd) (s : R.State) → command little_endian R (cmd_byte cmd) s ≡ done (ok cmd, s)
  unfolding command
  command_lem connect s = refl
  command_lem bind s = refl
  command_lem udp_associate s = refl

  read_ipv4_lem :
      (cmd : Cmd) (a b c d n : ℕ) (bytes4 more : List ℕ) (s : R.State)
      → length bytes4 ≡ 4
      → n < 2 ^ 16
      → R.IsReady s
      → R.pending s ≡ a ∷ b ∷ c ∷ d ∷ (port_bytes n ++ more)
      → Reads R
          (read_ipv4 little_endian R cmd bytes4 s)
          (record { cmd = cmd; addr = ip_to_string (a ∷ b ∷ c ∷ d ∷ []); port = heard n })
          more
  unfolding read_ipv4
  read_ipv4_lem cmd a b c d n bytes4 more s l fits h e =
      let (s1, run1, h1, p1) =
        read_into_lem R bytes4 (a ∷ b ∷ c ∷ d ∷ []) (port_bytes n ++ more) s h (sym l) e in
      let (s2, run2, h2, p2) = read_port_lem n more s1 fits h1 p1 in
      (s2, rw run1 (rw run2 refl), h2, p2)

  read_domain_lem :
      (cmd : Cmd) (name : List ℕ) (n : ℕ) (more : List ℕ) (s : R.State)
      → length name < 0x80
      → n < 2 ^ 16
      → R.IsReady s
      → R.pending s ≡ length name ∷ (name ++ (port_bytes n ++ more))
      → Reads R
          (read_domain little_endian R cmd s)
          (record { cmd = cmd; addr = name; port = heard n })
          more
  unfolding read_domain
  read_domain_lem cmd name n more s short fits h e =
      let size = length name in
      let (s1, run1, h1, p1) =
        read_into_lem R (0 ∷ []) (size ∷ []) (name ++ (port_bytes n ++ more)) s h refl e in
      let (s2, run2, h2, p2) =
        read_into_lem R (replicate {A = ℕ} size 0) name (port_bytes n ++ more) s1 h1
          (sym (length-replicate {A = ℕ} size 0)) p1 in
      let (s3, run3, h3, p3) = read_port_lem n more s2 fits h2 p2 in
      (s3, rw run1 (rw (room_lem size short) (rw run2 (rw run3 refl))), h3, p3)

  read_ipv6_lem :
      (cmd : Cmd) (ip : List ℕ) (n : ℕ) (more : List ℕ) (s : R.State)
      → length ip ≡ 16
      → n < 2 ^ 16
      → R.IsReady s
      → R.pending s ≡ ip ++ (port_bytes n ++ more)
      → Reads R
          (read_ipv6 little_endian R cmd s)
          (record { cmd = cmd; addr = []; port = heard n })
          more
  unfolding read_ipv6
  read_ipv6_lem cmd ip n more s l fits h e =
      let (s1, run1, h1, p1) =
        read_into_lem R (replicate {A = ℕ} 16 0) ip (port_bytes n ++ more) s h l e in
      let (s2, run2, h2, p2) = read_port_lem n more s1 fits h1 p1 in
      (s2, rw run1 (rw run2 refl), h2, p2)

  -- The four bytes at the front, and the branch of the address's type.
  rest_of : Cmd → Address → List ℕ → Coro R.State Request
  rest_of cmd (ipv4 a b c d) bytes4 = read_ipv4 little_endian R cmd bytes4
  rest_of cmd (domain name) bytes4 = read_domain little_endian R cmd
  rest_of cmd (ipv6 ip) bytes4 = read_ipv6 little_endian R cmd

  read_request_front :
      (cmd : Cmd) (address : Address) (s s' : R.State)
      → read_into R (0 ∷ 0 ∷ 0 ∷ 0 ∷ []) s
        ≡ done (ok (0x05 ∷ cmd_byte cmd ∷ 0x00 ∷ atyp address ∷ []), s')
      → read_request little_endian R s
        ≡ rest_of cmd address (0x05 ∷ cmd_byte cmd ∷ 0x00 ∷ atyp address ∷ []) s'
  unfolding read_request rest_of
  read_request_front cmd (ipv4 a b c d) s s' e = rw e (rw (command_lem cmd s') refl)
  read_request_front cmd (domain name) s s' e = rw e (rw (command_lem cmd s') refl)
  read_request_front cmd (ipv6 ip) s s' e = rw e (rw (command_lem cmd s') refl)

  rest_lem :
      (cmd : Cmd) (address : Address) (n : ℕ) (bytes4 more : List ℕ) (s : R.State)
      → Fits address
      → length bytes4 ≡ 4
      → n < 2 ^ 16
      → R.IsReady s
      → R.pending s ≡ address_bytes address ++ (port_bytes n ++ more)
      → Reads R
          (rest_of cmd address bytes4 s)
          (record { cmd = cmd; addr = kept address; port = heard n })
          more
  unfolding rest_of
  rest_lem cmd (ipv4 a b c d) n bytes4 more s fit l fits h e =
      read_ipv4_lem cmd a b c d n bytes4 more s l fits h e
  rest_lem cmd (domain name) n bytes4 more s fit l fits h e =
      read_domain_lem cmd name n more s fit fits h e
  rest_lem cmd (ipv6 ip) n bytes4 more s fit l fits h e = read_ipv6_lem cmd ip n more s fit fits h e

  -- On a little-endian machine, from a ready reader that has a request pending, for any command and
  -- type of address, a name being of less than 128 bytes, `read_request` succeeds without a failed
  -- assertion, gives the command and the address, an IPv6 address excepted, and leaves what follows
  -- to be read. The port is the one requested if it is below 32768, and else has the lower byte 255.
  pub read_request_lem :
      (cmd : Cmd) (address : Address) (port : ℕ) (more : List ℕ) (s : R.State)
      → Fits address
      → port < 2 ^ 16
      → R.IsReady s
      → R.pending s ≡ request_bytes cmd address port ++ more
      → Reads R
          (read_request little_endian R s)
          (record { cmd = cmd; addr = kept address; port = heard port })
          more
  read_request_lem cmd address port more s fit fits h e =
      let front = 0x05 ∷ cmd_byte cmd ∷ 0x00 ∷ atyp address ∷ [] in
      let behind = address_bytes address ++ (port_bytes port ++ more) in
      let cut : R.pending s ≡ front ++ behind =
        e ∙ ap (λ t. front ++ t) (append_assoc (address_bytes address) (port_bytes port) more) in
      let (s1, run1, h1, p1) = read_into_lem R (0 ∷ 0 ∷ 0 ∷ 0 ∷ []) front behind s h refl cut in
      let (s2, run2, h2, p2) = rest_lem cmd address port front more s1 fit refl fits h1 p1 in
      (s2, read_request_front cmd address s s1 run1 ∙ run2, h2, p2)
