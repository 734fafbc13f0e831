-- ===== src/Codec/Http/RoundTrip.antt =====
-- A request that `HttpCodec` writes is what its parsers take apart.
use uvio.Prelude.{ℕ, ◌<◌, ◌^◌, ◌≡◌, refl, sym, ap, ◌∙◌, List, [], ◌∷◌, ◌++◌, length, All, arith}
use uvio.Common.Result.{ok, done}
use uvio.Io.Ports.{ByteWriter}
use uvio.Codec.Http.{HttpHeader, is_blank, parse_line, parse_headers}
use uvio.Codec.Http.Line.{Passes, parse_line_lem}
use uvio.Codec.Http.Headers.{IsPlain, parse_headers-headers_text}
use uvio.Codec.Http.Encode.{
  http_version, request_line, headers_text, HttpRequest, encode_request, encode_request_lem,
}

pub request_line_lem :
    (method uri : List ℕ)
    → Passes is_blank method
    → Passes is_blank uri
    → parse_line (request_line method uri) ≡ ok (method, uri, http_version)
unfolding request_line
request_line_lem method uri pm pu =
    parse_line_lem method uri http_version 0x0D (0x0A ∷ []) pm pu
      (refl, (refl, (refl, (refl, (refl, (refl, (refl, (refl, tt)))))))) refl

-- What `encode` has written to a fresh writer for a request, whose method and uri hold no blank and
-- whose headers are plain, the line and the headers having less than 2 ^ 31 bytes each, is a line and a text, from which
-- the parsers give the method, the uri and the headers back, these in the order in which they were
-- listed.
pub parse-encode_request :
    (listed : HttpHeader → HttpHeader) (W : ByteWriter) (req : HttpRequest) (w w' : W.State)
    → Passes is_blank req.method
    → Passes is_blank req.uri
    → All IsPlain (listed req.headers)
    → length (request_line req.method req.uri) < 2 ^ 31
    → length (headers_text (listed req.headers)) < 2 ^ 31
    → W.IsReady w
    → W.written w ≡ []
    → encode_request listed W req w ≡ done (ok tt, w')
    → (line text : List ℕ) × (W.sent w' ≡ line ++ text)
      × (parse_line line ≡ ok (req.method, req.uri, http_version))
      × (parse_headers text ≡ done (listed req.headers))
parse-encode_request listed W req w w' pm pu ph short fits hw fresh enc =
    let (w1, run, _, out) = encode_request_lem listed W req w short fits hw in
    let same : w1 ≡ w' = cc (run, enc) in
    let line = request_line req.method req.uri in
    let text = headers_text (listed req.headers) in
    (
      line,
      text,
      ap W.sent (sym same) ∙ out ∙ ap (λ t. t ++ (line ++ text)) fresh,
      request_line_lem req.method req.uri pm pu,
      parse_headers-headers_text (listed req.headers) ph (omega (arith, fits)),
    )
