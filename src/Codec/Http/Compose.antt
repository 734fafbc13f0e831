-- ===== src/Codec/Http/Compose.antt =====
-- A request that `HttpCodec::encode` writes is what `HttpCodec::decode` reads, but for its body.
use uvio.Prelude.{
  ℕ, ◌+◌, ◌≤◌, ◌<◌, ◌^◌, ◌≡◌, refl, sym, ap, ap₂, ◌∙◌, false, List, [], ◌∷◌, ◌++◌, append_assoc,
  some, length, take, drop, All, ◌==◌, arith, length-append, take-length_append, drop-length_append,
}
use uvio.Common.Result.{ok, done}
use uvio.Io.Buffer.{find}
use uvio.Io.Ports.{TextReader, ByteWriter}
use uvio.Codec.Bytes.{Reads, read_span_lem}
use uvio.Codec.Http as Http
use uvio.Codec.Http.{HttpHeader, is_blank, is_line_end, parse_line}
use uvio.Codec.Http.Line.{Passes}
use uvio.Codec.Http.Headers.{IsPlain, parse_headers-headers_text, All-append}
use uvio.Codec.Http.Encode.{
  http_version, line_break, request_line, headers_text, HttpRequest, encode_request,
  encode_request_lem,
}
use uvio.Codec.Http.RoundTrip.{request_line_lem}
use uvio.Codec.Http.Flag.{equal_comm, OneLine, OneLine-of, find-line_break, find-headers_text}
use uvio.Codec.Http.Decode.{read_text, read_body, read_fields, decode_request}

-- An empty request, as the framing passes it in.
abbrev pub empty_request : HttpRequest
empty_request = record { method = []; uri = []; headers = []; body = [] }

two_of :
    (xs : List ℕ)
    → 2 ≤ length xs
    → OneLine xs
    → (a b : ℕ) × (seg : List ℕ) × (xs ≡ a ∷ b ∷ seg) × ((0x0D == a) ≡ false) × OneLine seg
two_of [] h p = absurd (omega arith)
two_of (a ∷ []) h p = absurd (omega arith)
two_of (a ∷ b ∷ seg) h (first, (_, p)) = (a, b, seg, refl, first, p)

line_cut :
    (k v : List ℕ) (header : HttpHeader)
    → headers_text ((k, v) ∷ header) ≡ (k ++ 0x3A ∷ 0x20 ∷ v) ++ (line_break ++ headers_text header)
unfolding headers_text
line_cut k v header = sym (append_assoc k (0x3A ∷ 0x20 ∷ v) (line_break ++ headers_text header))

nil_text : headers_text [] ≡ line_break
unfolding headers_text
nil_text = refl

line_text :
    (method uri : List ℕ)
    → request_line method uri ≡ (method ++ 0x20 ∷ (uri ++ 0x20 ∷ http_version)) ++ line_break
unfolding request_line
line_text method uri =
    ap (λ t. method ++ 0x20 ∷ t) (sym (append_assoc uri (0x20 ∷ http_version) line_break))
    ∙ sym (append_assoc method (0x20 ∷ (uri ++ 0x20 ∷ http_version)) line_break)

-- A request that comes through: no blank and no line end in its method and its uri, and less than
-- 2 ^ 31 bytes in its line and in its headers.
pub record IsPlainRequest (req : HttpRequest) : Type 0 where
  pub method_blank : Passes is_blank req.method
  pub method_line : Passes is_line_end req.method
  pub uri_blank : Passes is_blank req.uri
  pub uri_line : Passes is_line_end req.uri
  pub headers_plain : All IsPlain req.headers
  pub line_fits : length (request_line req.method req.uri) < 2 ^ 31
  pub headers_fit : length (headers_text req.headers) < 2 ^ 31

module _ (R : TextReader) (moved : HttpHeader → HttpHeader) where
  open R use {bytes}

  pub read_text_lem :
      (buf xs flag more : List ℕ) (n : ℕ) (s : bytes.State)
      → bytes.IsReady s
      → bytes.pending s ≡ xs ++ more
      → 0 < length flag
      → length xs ≡ n + length flag
      → find flag (xs ++ more) ≡ some n
      → Reads bytes (read_text R moved buf flag s) (buf ++ xs) more
  unfolding read_text
  read_text_lem buf xs flag more n s h e some_flag l found =
      let (size, s', run, h', p) =
        R.read_until_law buf flag n s h some_flag (ap (find flag) e ∙ found) in
      let got : take (n + length flag) (bytes.pending s) ≡ xs =
        ap₂ take (sym l) e ∙ take-length_append xs more in
      let left : drop (n + length flag) (bytes.pending s) ≡ more =
        ap₂ drop (sym l) e ∙ drop-length_append xs more in
      (s', rw run (ap (λ t. done (ok (buf ++ t), s')) got), h', p ∙ left)

  -- A map that was moved from and is empty gives no length, so that no body is read.
  read_body_lem :
      (headers : HttpHeader) (body : List ℕ) (s : bytes.State)
      → headers ≡ []
      → read_body R moved headers body s ≡ done (ok body, s)
  unfolding read_body Http.find Http.values
  read_body_lem headers body s e = ap (λ t. read_body R moved t body s) e

  fields_none :
      (more : List ℕ) (s : bytes.State)
      → bytes.IsReady s
      → bytes.pending s ≡ line_break ++ more
      → Reads bytes (read_fields R moved [] [] s) ([], []) more
  unfolding read_fields
  fields_none more s h e =
      let (s1, run1, h1, p1) = read_span_lem bytes (0 ∷ 0 ∷ []) line_break more s h refl e in
      (s1, rw run1 refl, h1, p1)

  fields_some :
      (a b n : ℕ) (seg more : List ℕ) (header : HttpHeader) (s : bytes.State)
      → (0x0D == a) ≡ false
      → bytes.IsReady s
      → bytes.pending s ≡ a ∷ b ∷ (seg ++ more)
      → length seg ≡ n + 4
      → find (line_break ++ line_break) (seg ++ more) ≡ some n
      → Http.parse_headers (a ∷ b ∷ seg) ≡ done header
      → moved header ≡ []
      → Reads bytes (read_fields R moved [] [] s) (header, []) more
  unfolding read_fields
  fields_some a b n seg more header s first h e l found parsed gone =
      let (s1, run1, h1, p1) =
        read_span_lem bytes (0 ∷ 0 ∷ []) (a ∷ b ∷ []) (seg ++ more) s h refl e in
      let (s2, run2, h2, p2) =
        read_text_lem (a ∷ b ∷ []) seg (line_break ++ line_break) more n s1 h1 p1 (omega arith) l
          found in
      let not_end : (a == 0x0D) ≡ false = equal_comm 0x0D a first in
      (
        s2,
        rw run1
            (rw not_end (rw run2 (rw parsed (rw (read_body_lem (moved header) [] s2 gone) refl)))),
        h2,
        p2,
      )

  pub read_fields_lem :
      (header : HttpHeader) (more : List ℕ) (s : bytes.State)
      → All IsPlain header
      → length (headers_text header) < 2 ^ 64
      → moved header ≡ []
      → bytes.IsReady s
      → bytes.pending s ≡ headers_text header ++ more
      → Reads bytes (read_fields R moved [] [] s) (header, []) more
  read_fields_lem [] more s p fits gone h e =
      fields_none more s h (e ∙ ap (λ t. t ++ more) nil_text)
  read_fields_lem ((k, v) ∷ header) more s (q, p) fits gone h e =
      let line = k ++ 0x3A ∷ 0x20 ∷ v in
      let one =
        OneLine-of line
          (All-append is_line_end k (0x3A ∷ 0x20 ∷ v) q.key_line (refl, (refl, q.value_line))) in
      let (a, b, seg, ab, first, rest) =
        two_of line (omega (arith, length-append k (0x3A ∷ 0x20 ∷ v))) one in
      let tail = line_break ++ headers_text header in
      let whole : headers_text ((k, v) ∷ header) ≡ a ∷ b ∷ (seg ++ tail) =
        line_cut k v header ∙ ap (λ t. t ++ tail) ab in
      let (n, found, size) = find-headers_text header seg more p rest in
      fields_some a b n (seg ++ tail) more ((k, v) ∷ header) s first h
        (e ∙ ap (λ t. t ++ more) whole) (omega (arith, size, length-append seg tail))
        (ap (find (line_break ++ line_break)) (append_assoc seg tail more) ∙ found)
        (ap Http.parse_headers (sym whole)
          ∙ parse_headers-headers_text ((k, v) ∷ header) (q, p) fits)
        gone

  -- From a reader that has a request pending as `encode` writes it.
  pub decode_request_lem :
      (req : HttpRequest) (more : List ℕ) (s : bytes.State)
      → IsPlainRequest req
      → moved req.headers ≡ []
      → bytes.IsReady s
      → bytes.pending s ≡ request_line req.method req.uri ++ (headers_text req.headers ++ more)
      → Reads bytes (decode_request R moved empty_request s) (record req { body = [] }) more
  unfolding decode_request
  decode_request_lem req more s plain gone h e =
      let line = req.method ++ 0x20 ∷ (req.uri ++ 0x20 ∷ http_version) in
      let fits : length (headers_text req.headers) < 2 ^ 64 = omega (arith, plain.headers_fit) in
      let rest = headers_text req.headers ++ more in
      let cut : request_line req.method req.uri ≡ line ++ line_break =
        line_text req.method req.uri in
      let one : OneLine line = OneLine-of line (
        All-append is_line_end req.method _ plain.method_line (
          refl,
          All-append is_line_end req.uri (0x20 ∷ http_version) plain.uri_line
              (refl, (refl, (refl, (refl, (refl, (refl, (refl, (refl, (refl, tt))))))))),
        )) in
      let (s1, run1, h1, p1) =
        read_text_lem [] (request_line req.method req.uri) line_break rest (length line) s h e
          (omega arith) (ap length cut ∙ length-append line line_break)
          (ap (find line_break) (ap (λ t. t ++ rest) cut ∙ append_assoc line line_break rest)
            ∙ find-line_break line rest one) in
      let (s2, run2, h2, p2) =
        read_fields_lem req.headers more s1 plain.headers_plain fits gone h1 p1 in
      (
        s2,
        rw run1 (
            rw (request_line_lem req.method req.uri plain.method_blank plain.uri_blank)
              (rw run2 refl)),
        h2,
        p2,
      )

-- The request with its headers in the order in which the encoder goes through them.
abbrev pub as_listed : (HttpHeader → HttpHeader) → HttpRequest → HttpRequest
as_listed listed req = record req { headers = listed req.headers }

-- What `encode` has written to a fresh writer for a request that is plain as its headers are listed,
-- `decode` reads into an empty one with a ready reader (a `BufReader` is one that has the bytes in its
-- buffer, without a NUL and with one behind them, so that nothing is read from the socket): it
-- succeeds with the same method and uri, the headers as they were listed and an empty body, and
-- leaves all that follows the headers to be read, a body too, if the map of the headers is empty
-- after it was moved from.
pub decode-encode_request :
    (listed : HttpHeader → HttpHeader) (W : ByteWriter) (R : TextReader)
    (moved : HttpHeader → HttpHeader) (req : HttpRequest) (more : List ℕ) (w w' : W.State)
    (r : R.bytes.State)
    → IsPlainRequest (as_listed listed req)
    → moved (listed req.headers) ≡ []
    → W.IsReady w
    → W.written w ≡ []
    → encode_request listed W req w ≡ done (ok tt, w')
    → R.bytes.IsReady r
    → R.bytes.pending r ≡ W.sent w' ++ more
    → Reads R.bytes
        (decode_request R moved empty_request r)
        (record req { headers = listed req.headers; body = [] })
        more
decode-encode_request listed W R moved req more w w' r plain gone hw fresh enc hr e =
    let (w1, run, _, out) =
      encode_request_lem listed W req w plain.line_fits plain.headers_fit hw in
    let same : w1 ≡ w' = cc (run, enc) in
    let line = request_line req.method req.uri in
    let text = headers_text (listed req.headers) in
    decode_request_lem R moved (as_listed listed req) more r plain gone hr (
      e
      ∙ ap (λ t. W.sent t ++ more) (sym same)
      ∙ ap (λ t. t ++ more) (out ∙ ap (λ t. t ++ (line ++ text)) fresh)
      ∙ append_assoc line text more)
