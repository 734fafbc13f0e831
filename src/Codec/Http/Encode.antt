-- ===== src/Codec/Http/Encode.antt =====
-- `HttpCodec::encode` of a request and `HttpCodec::websocket_handshake`: what they write. The headers
-- are written in the order in which the program goes through the unordered multimap; C++ leaves that
-- order open, and it is the parameter `listed`.
use uvio.Prelude.{
  ℕ, ◌^◌, ◌≤◌, ◌<◌, ◌≡◌, refl, sym, ap, ◌∙◌, List, [], ◌∷◌, ◌++◌, append_assoc, append-nil, length,
  length-append, arith,
}
use uvio.Common.Result.{ok, done}
use uvio.Common.Coro.{Coro, co_return, ◌>>◌}
use uvio.Io.Ports.{ByteWriter}
use uvio.Codec.Bytes.{write_from, write_from_lem, Writes, Writes-seq}
use uvio.Codec.Http.{HttpHeader}

-- " HTTP/1.1\r\n" and "HTTP/1.1 101 Switching Protocols\r\n".
abbrev pub http_version : List ℕ
http_version = 0x48 ∷ 0x54 ∷ 0x54 ∷ 0x50 ∷ 0x2F ∷ 0x31 ∷ 0x2E ∷ 0x31 ∷ []

abbrev pub line_break : List ℕ
line_break = 0x0D ∷ 0x0A ∷ []

abbrev pub switching_protocols : List ℕ
switching_protocols =
    http_version
    ++ (0x20 ∷ 0x31 ∷ 0x30 ∷ 0x31 ∷ 0x20 ∷ 0x53 ∷ 0x77 ∷ 0x69 ∷ 0x74 ∷ 0x63 ∷ 0x68 ∷ 0x69 ∷ 0x6E
        ∷ 0x67 ∷ 0x20 ∷ 0x50 ∷ 0x72 ∷ 0x6F ∷ 0x74 ∷ 0x6F ∷ 0x63 ∷ 0x6F ∷ 0x6C ∷ 0x73 ∷ line_break)

-- `std::format("{} {} HTTP/1.1\r\n", method, uri)` and `std::format("{}: {}\r\n", k, v)`.
unfoldable pub request_line : List ℕ → List ℕ → List ℕ
request_line method uri = method ++ 0x20 ∷ (uri ++ 0x20 ∷ (http_version ++ line_break))

unfoldable pub header_line : List ℕ → List ℕ → List ℕ
header_line k v = k ++ 0x3A ∷ 0x20 ∷ (v ++ line_break)

-- All lines of the headers, and the empty line after them.
unfoldable pub headers_text : HttpHeader → List ℕ
headers_text [] = line_break
headers_text ((k, v) ∷ header) = k ++ 0x3A ∷ 0x20 ∷ (v ++ 0x0D ∷ 0x0A ∷ headers_text header)

abbrev header_lines : HttpHeader → List ℕ
header_lines [] = []
header_lines ((k, v) ∷ header) = header_line k v ++ header_lines header

lines_text : (header : HttpHeader) → header_lines header ++ line_break ≡ headers_text header
unfolding headers_text header_line
lines_text [] = refl
lines_text ((k, v) ∷ header) =
    append_assoc (header_line k v) (header_lines header) line_break
    ∙ append_assoc k (0x3A ∷ 0x20 ∷ (v ++ line_break)) (header_lines header ++ line_break)
    ∙ ap (λ t. k ++ 0x3A ∷ 0x20 ∷ t)
        (append_assoc v line_break (header_lines header ++ line_break)
          ∙ ap (λ t. v ++ 0x0D ∷ 0x0A ∷ t) (lines_text header))

-- The text is at least as long as each of its lines, and as the text of the headers behind.
length-headers_text :
    (k v : List ℕ) (header : HttpHeader)
    → (length (header_line k v) ≤ length (headers_text ((k, v) ∷ header)))
      × (length (headers_text header) ≤ length (headers_text ((k, v) ∷ header)))
unfolding headers_text header_line
length-headers_text k v header =
    let rest = headers_text header in
    omega (
      arith,
      length-append k (0x3A ∷ 0x20 ∷ (v ++ line_break)),
      length-append v line_break,
      length-append k (0x3A ∷ 0x20 ∷ (v ++ 0x0D ∷ 0x0A ∷ rest)),
      length-append v (0x0D ∷ 0x0A ∷ rest),
    )

-- `struct HttpRequest`, as far as `encode` reads it.
pub record HttpRequest : Type 0 where
  pub method : List ℕ
  pub uri : List ℕ
  pub headers : HttpHeader
  pub body : List ℕ

module _ (W : ByteWriter) where
  -- `for (auto &[k, v] : headers.inner()) co_await writer.write(...);`
  unfoldable pub write_headers : HttpHeader → Coro W.State (Unit {0})
  unfolding write_from header_line
  write_headers [] = co_return tt
  write_headers ((k, v) ∷ header) = do write_from W (header_line k v); write_headers header

  write_headers_lem :
      (header : HttpHeader) (s : W.State)
      → length (headers_text header) < 2 ^ 31
      → W.IsReady s
      → Writes W (write_headers header) (header_lines header) s
  unfolding write_headers
  write_headers_lem [] s small h = (s, refl, h, sym (append-nil (W.written s)))
  write_headers_lem ((k, v) ∷ header) s small h =
      let (line, rest) = length-headers_text k v header in
      Writes-seq W (write_from W (header_line k v)) (write_headers header) (header_line k v)
        (header_lines header) s (write_from_lem W (header_line k v) s (omega arith) h)
        (λ s' h'. write_headers_lem header s' (omega arith) h')

  -- A first line, the headers, and the empty line, flushed: nothing is left in the buffer.
  flush_all_lines :
      (first : List ℕ) (header : HttpHeader) (s : W.State)
      → length first < 2 ^ 31
      → length (headers_text header) < 2 ^ 31
      → W.IsReady s
      → (s' : W.State) × ((do
        write_from W first
        write_headers header
        write_from W line_break
        W.flush)
            s
          ≡ done (ok tt, s'))
        × W.IsReady s'
        × (W.sent s' ≡ W.written s ++ (first ++ headers_text header))
        × (W.written s' ≡ W.sent s')
  flush_all_lines first header s short small h =
      let (s1, run1, h1, all1) = write_from_lem W first s short h in
      let (s2, run2, h2, all2) = write_headers_lem header s1 small h1 in
      let (s3, run3, h3, all3) = write_from_lem W line_break s2 (omega arith) h2 in
      let (s4, run4, h4, kept, gone) = W.flush_law s3 h3 in
      (
        s4,
        rw run1 (rw run2 (rw run3 (rw run4))),
        h4,
        gone
            ∙ all3
            ∙ ap (λ t. t ++ line_break) (all2 ∙ ap (λ t. t ++ header_lines header) all1)
            ∙ append_assoc (W.written s ++ first) (header_lines header) line_break
            ∙ append_assoc (W.written s) first (header_lines header ++ line_break)
            ∙ ap (λ t. W.written s ++ (first ++ t)) (lines_text header),
        kept ∙ sym gone,
      )

module _ (listed : HttpHeader → HttpHeader) (W : ByteWriter) where
  unfoldable pub encode_request : HttpRequest → Coro W.State (Unit {0})
  unfolding write_headers request_line
  encode_request req = do
    write_from W (request_line req.method req.uri)
    write_headers W (listed req.headers)
    write_from W line_break
    W.flush

  unfoldable pub websocket_handshake : HttpHeader → Coro W.State (Unit {0})
  unfolding write_headers
  websocket_handshake headers = do
    write_from W switching_protocols
    write_headers W (listed headers)
    write_from W line_break
    W.flush

  -- `encode` of a request, and `websocket_handshake`, leave nothing in the buffer.
  pub encode_request-flushed :
      (req : HttpRequest) (s : W.State)
      → length (request_line req.method req.uri) < 2 ^ 31
      → length (headers_text (listed req.headers)) < 2 ^ 31
      → W.IsReady s
      → (s' : W.State) × (encode_request req s ≡ done (ok tt, s'))
        × W.IsReady s'
        × (W.sent s'
            ≡ W.written s ++ (request_line req.method req.uri ++ headers_text (listed req.headers)))
        × (W.written s' ≡ W.sent s')
  unfolding encode_request
  encode_request-flushed req s short small h =
      flush_all_lines W (request_line req.method req.uri) (listed req.headers) s short small h

  pub websocket_handshake-flushed :
      (headers : HttpHeader) (s : W.State)
      → length (headers_text (listed headers)) < 2 ^ 31
      → W.IsReady s
      → (s' : W.State) × (websocket_handshake headers s ≡ done (ok tt, s'))
        × W.IsReady s'
        × (W.sent s' ≡ W.written s ++ (switching_protocols ++ headers_text (listed headers)))
        × (W.written s' ≡ W.sent s')
  unfolding websocket_handshake
  websocket_handshake-flushed headers s small h =
      flush_all_lines W switching_protocols (listed headers) s (omega arith) small h

  -- `encode` of a request whose line and headers have less than 2 ^ 31 bytes each, with a ready writer,
  -- succeeds, adds its line, its headers and an empty line
  -- to what was written, and flushes; nothing of its body is written.
  pub encode_request_lem :
      (req : HttpRequest) (s : W.State)
      → length (request_line req.method req.uri) < 2 ^ 31
      → length (headers_text (listed req.headers)) < 2 ^ 31
      → W.IsReady s
      → (s' : W.State) × (encode_request req s ≡ done (ok tt, s'))
        × W.IsReady s'
        × (W.sent s'
            ≡ W.written s ++ (request_line req.method req.uri ++ headers_text (listed req.headers)))
  encode_request_lem req s short small h =
      let (s', run, h', out, _) = encode_request-flushed req s short small h in (s', run, h', out)

  -- `websocket_handshake` of headers of less than 2 ^ 31 bytes, with a ready writer, succeeds, adds the line of status 101, the headers and
  -- an empty line to what was written, and flushes.
  pub websocket_handshake_lem :
      (headers : HttpHeader) (s : W.State)
      → length (headers_text (listed headers)) < 2 ^ 31
      → W.IsReady s
      → (s' : W.State) × (websocket_handshake headers s ≡ done (ok tt, s'))
        × W.IsReady s'
        × (W.sent s' ≡ W.written s ++ (switching_protocols ++ headers_text (listed headers)))
  websocket_handshake_lem headers s small h =
      let (s', run, h', out, _) = websocket_handshake-flushed headers s small h in
      (s', run, h', out)
