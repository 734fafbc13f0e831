-- ===== src/Codec/Http/Decode.antt =====
-- `HttpCodec::decode` of a request and of a response, and `HttpCodec::http_response`. What a map holds
-- after it was moved from is left open by the language: `moved` is a parameter.
use uvio.Prelude.{
  ℕ, suc, ◌==◌, Bool, true, false, ◌&&◌, List, [], ◌∷◌, ◌++◌, none, some, length, if◌then◌else◌,
}
use uvio.Common.Result.{Result, ok, unexpected, Run, done, fault, ◌>>=◌ as run_bind}
use uvio.Common.Coro.{Coro, co_return, ◌>>=◌, ◌>>◌}
use uvio.Common.Stoi.{ℤ, pos, negsuc, stoi, to_string}
use uvio.Io.Ports.{TextReader, ByteWriter}
use uvio.Codec.Bytes.{resize, read_span, write_span}
use uvio.Codec.Http.{HttpHeader, find, parse_line, parse_headers}
use uvio.Codec.Http.Encode.{HttpRequest, line_break, websocket_handshake}

-- `struct HttpResponse`.
pub record HttpResponse : Type 0 where
  pub status_code : ℤ
  pub status_text : List ℕ
  pub headers : HttpHeader
  pub body : List ℕ

-- "Content-Length" and "Upgrade".
abbrev pub content_length : List ℕ
content_length =
    0x43 ∷ 0x6F ∷ 0x6E ∷ 0x74 ∷ 0x65 ∷ 0x6E ∷ 0x74 ∷ 0x2D ∷ 0x4C ∷ 0x65 ∷ 0x6E ∷ 0x67 ∷ 0x74 ∷ 0x68
    ∷ []

abbrev pub upgrade : List ℕ
upgrade = 0x55 ∷ 0x70 ∷ 0x67 ∷ 0x72 ∷ 0x61 ∷ 0x64 ∷ 0x65 ∷ []

-- `std::string ==`.
abbrev pub same_text : List ℕ → List ℕ → Bool
same_text [] [] = true
same_text [] (y ∷ ys) = false
same_text (x ∷ xs) [] = false
same_text (x ∷ xs) (y ∷ ys) = (x == y) && same_text xs ys

-- A step that may fail by an assertion or an exception, and one that gives a `Result`.
abbrev pub run_in : {S : Type 0} {A : Type 0} → Run A → Coro S A
run_in m s = run_bind m λ a. co_return a s

abbrev pub result_in : {S : Type 0} {A : Type 0} → Result A → Coro S A
result_in (ok a) s = done (ok a, s)
result_in (unexpected e) s = done (unexpected e, s)

-- `std::string body; body.resize(length);`, which throws on a length below zero.
unfoldable pub sized : ℤ → Run (List ℕ)
unfolding resize
sized (pos n) = done (resize n [])
sized (negsuc n) = fault

module _ (R : TextReader) (moved : HttpHeader → HttpHeader) where
  open R use {bytes}

  abbrev State : Type 0
  State = bytes.State

  -- `reader.read_until`; on an error the coroutine returns it.
  unfoldable pub read_text : List ℕ → List ℕ → Coro State (List ℕ)
  read_text buf end_flag s = run_bind (R.read_until buf end_flag s) λ (ret, text, s'). elim ret [
    | unexpected e ↦ done (unexpected e, s')
    | ok n ↦ done (ok text, s')
  ]

  -- The body, by the headers that were moved from.
  unfoldable pub read_body : HttpHeader → List ℕ → Coro State (List ℕ)
  unfolding find stoi sized read_span
  read_body headers body = elim (find content_length headers) [
    | none ↦ co_return body
    | some value ↦ (do
      length ← run_in (stoi value)
      room ← run_in (sized length)
      read_span bytes room)
  ]

  -- What both decoders do behind the first line: from the headers and body that are passed in.
  unfoldable pub read_fields : HttpHeader → List ℕ → Coro State (HttpHeader × List ℕ)
  unfolding read_text read_body parse_headers read_span
  read_fields headers body = do
    two ← read_span bytes (0 ∷ 0 ∷ [])
    let full : Coro State (HttpHeader × List ℕ) = (do
      text ← read_text two (line_break ++ line_break)
      headers' ← run_in (parse_headers text)
      body' ← read_body (moved headers') body
      co_return (headers', body'))
    if same_text two line_break then co_return (headers, body) else full

  unfoldable pub decode_request : HttpRequest → Coro State HttpRequest
  unfolding read_fields parse_line
  decode_request req = do
    line ← read_text [] line_break
    parts ← result_in (parse_line line)
    fields ← read_fields req.headers req.body
    co_return (record { method = parts.0; uri = parts.1; headers = fields.0; body = fields.1 })

  unfoldable pub decode_response : HttpResponse → Coro State HttpResponse
  unfolding read_fields parse_line
  decode_response resp = do
    line ← read_text [] line_break
    parts ← result_in (parse_line line)
    code ← run_in (stoi (parts.1))
    fields ← read_fields resp.headers resp.body
    co_return (record resp { status_code = code; headers = fields.0; body = fields.1 })

-- "HTTP/1.0 ", "\r\nContent-Length: "
abbrev pub version_10 : List ℕ
version_10 = 0x48 ∷ 0x54 ∷ 0x54 ∷ 0x50 ∷ 0x2F ∷ 0x31 ∷ 0x2E ∷ 0x30 ∷ []

unfoldable pub int_text : ℤ → List ℕ
unfolding to_string
int_text (pos n) = to_string n
int_text (negsuc n) = 0x2D ∷ to_string (suc n)

-- `std::format("HTTP/1.0 {} {}\r\nContent-Length: {}\r\n\r\n{}", ...)`.
unfoldable pub response_text : HttpResponse → List ℕ
unfolding int_text
response_text resp =
    version_10
    ++ 0x20
      ∷ (int_text resp.status_code
          ++ 0x20
            ∷ (resp.status_text
                ++ 0x0D
                  ∷ 0x0A
                  ∷ (content_length
                      ++ 0x3A
                        ∷ 0x20
                        ∷ (to_string (length resp.body) ++ 0x0D ∷ 0x0A ∷ 0x0D ∷ 0x0A ∷ resp.body))))

module _ (W : ByteWriter) where
  unfoldable pub http_response : HttpResponse → Coro W.State (Unit {0})
  unfolding response_text write_span
  http_response resp = do write_span W (response_text resp); W.flush

module _ (listed : HttpHeader → HttpHeader) (W : ByteWriter) where
  -- `encode` of a response.
  unfoldable pub encode_response : HttpResponse → Coro W.State (Unit {0})
  unfolding find http_response websocket_handshake
  encode_response resp = elim (find upgrade resp.headers) [
    | none ↦ http_response W resp
    | some value ↦ websocket_handshake listed W resp.headers
  ]
