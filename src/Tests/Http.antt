-- ===== src/Tests/Http.antt =====
-- The parsers and encoders of HTTP at concrete texts, with a buffered writer of three bytes.
use uvio.Prelude.{
  sym, ap, length, none, ℕ, ◌<◌, ◌^◌, ◌≡◌, refl, List, [], ◌∷◌, ◌++◌, inr, arith, ◌==◌,
}
use uvio.Common.Result.{done, ok}
use uvio.Io.BufWriter.{BufWriter}
use uvio.Io.BufWriter.Order.{IsReady}
use uvio.Codec.Http.{
  add, find_char, add_line, skip_until, rounds_until, trim, is_space, HttpHeader, values,
  parse_headers,
}
use uvio.Codec.Http.Headers.{IsPlain}
use uvio.Codec.Http.Total.{parse_headers_lem}
use uvio.Codec.Http.Encode.{
  http_version, request_line, headers_text, HttpRequest, encode_request, encode_request_lem,
}
use uvio.Common.Stoi.{pos}
use uvio.Codec.Bytes.{Reads}
use uvio.Codec.Http.Compose.{empty_request, IsPlainRequest, decode-encode_request}
use uvio.Net.HttpServer.{Route, respond, ok_text, not_found_text, not_found_body}
use uvio.Net.HttpServer.Routing as Routing
use uvio.Net.HttpServer.Routing.{respond_lem}
use uvio.Codec.Http.Decode.{
  same_text, HttpResponse, version_10, content_length, upgrade, response_text, encode_response,
  decode_request, decode_response,
}
use uvio.Codec.Http.Respond.{length_header, encode_response_lem, decode-encode_response}
use uvio.Codec.Http.{find}
use uvio.Codec.Http.Plain.{passes-Passes}
use uvio.Tests.Streams.{log, writer, trickle}
use uvio.Io.BufReader.{BufReader}
use uvio.Io.BufReader.Text.{IsText}
use uvio.Io.Ports.Buffered.{text_bytes, text_reader}
use uvio.Tests.Codec.{fresh_writer, fresh_writer-IsReady}

abbrev get : List ℕ
get = 0x47 ∷ 0x45 ∷ 0x54 ∷ []

abbrev root : List ℕ
root = 0x2F ∷ []

abbrev host : List ℕ
host = 0x48 ∷ 0x6F ∷ []

abbrev header : HttpHeader
header = (host, root) ∷ []

abbrev request : HttpRequest
request = record { method = get; uri = root; headers = header; body = [] }

host-IsPlain : IsPlain (host, root)
unfolding is_space
host-IsPlain = record {
  key_trimmed = (0x48, 0x6F ∷ [], 0x48 ∷ [], 0x6F, refl, refl, refl, refl);
  key_colon = (refl, (refl, tt));
  key_line = (refl, (refl, tt));
  value_trimmed = inr (0x2F, [], [], 0x2F, refl, refl, refl, refl);
  value_line = (refl, tt);
}

parse_headers_lem_example :
    (h : HttpHeader) × (parse_headers (0x3A ∷ 0x0A ∷ 0x0D ∷ 0x3A ∷ []) ≡ done h)
parse_headers_lem_example = parse_headers_lem (0x3A ∷ 0x0A ∷ 0x0D ∷ 0x3A ∷ [])

-- A line without a colon takes the colon of the next line: "a\r\nb:c" has a header named "a\r\nb".
no_colon :
    parse_headers (0x61 ∷ 0x0D ∷ 0x0A ∷ 0x62 ∷ 0x3A ∷ 0x63 ∷ [])
    ≡ done ((0x61 ∷ 0x0D ∷ 0x0A ∷ 0x62 ∷ [], 0x63 ∷ []) ∷ (0x62 ∷ [], 0x63 ∷ []) ∷ [])
unfolding parse_headers add find_char add_line skip_until rounds_until trim
no_colon = refl

request-IsPlainRequest : IsPlainRequest request
unfolding headers_text request_line
request-IsPlainRequest = record {
  method_blank = (refl, (refl, (refl, tt)));
  method_line = (refl, (refl, (refl, tt)));
  uri_blank = (refl, tt);
  uri_line = (refl, tt);
  headers_plain = (host-IsPlain, tt);
  line_fits = omega arith;
  headers_fit = omega arith;
}

wrote_request :
    (w' : BufWriter log) × (encode_request (λ h. h) writer request fresh_writer ≡ done (ok tt, w'))
    × IsReady log w'
    × (w'.io ≡ request_line get root ++ headers_text header)
wrote_request =
    encode_request_lem (λ h. h) writer request fresh_writer request-IsPlainRequest.line_fits
      request-IsPlainRequest.headers_fit fresh_writer-IsReady

-- "GET / HTTP/1.1", "Ho: /", an empty line and a byte behind it, in the buffer of a reader.
abbrev request_bytes : List ℕ
request_bytes =
    get
    ++ 0x20
      ∷ (root
          ++ 0x20
            ∷ (http_version
                ++ 0x0D ∷ 0x0A ∷ (host ++ 0x3A ∷ 0x20 ∷ (root ++ 0x0D ∷ 0x0A ∷ 0x0D ∷ 0x0A ∷ []))))

abbrev holding : BufReader trickle
holding = record {
  io = [];
  r_stream = record {
    buf = (request_bytes ++ 0x21 ∷ []) ++ 0 ∷ [];
    r_pos = 0;
    w_pos = length (request_bytes ++ 0x21 ∷ []);
  };
}

holding-IsText : IsText trickle holding
holding-IsText = record {
  valid = record { ordered = omega arith; within = omega arith };
  readable = inr (record {
    behind = [];
    nul = refl;
    no_nul = passes-Passes (λ c. c == 0) (request_bytes ++ 0x21 ∷ []) refl;
  });
}

wrote_request_bytes : (wrote_request.0).io ≡ request_bytes
unfolding request_line headers_text
wrote_request_bytes = wrote_request.3

-- The request, and a body of one byte behind it, which stays to be read.
decode-encode_request_example :
    Reads
      (text_bytes trickle)
      (decode_request (text_reader trickle) (λ h. []) empty_request holding)
      request
      (0x21 ∷ [])
decode-encode_request_example =
    decode-encode_request (λ h. h) writer (text_reader trickle) (λ h. []) request (0x21 ∷ [])
      fresh_writer (wrote_request.0) holding request-IsPlainRequest refl fresh_writer-IsReady refl
      (wrote_request.1) holding-IsText (ap (λ t. t ++ 0x21 ∷ []) (sym wrote_request_bytes))

abbrev empty_response : HttpResponse
empty_response = record { status_code = pos 0; status_text = []; headers = []; body = [] }

-- "200 OK" with the body "hi".
abbrev response : HttpResponse
response = record {
  status_code = pos 200;
  status_text = 0x4F ∷ 0x4B ∷ [];
  headers = [];
  body = 0x68 ∷ 0x69 ∷ [];
}

no_upgrade : find upgrade [] ≡ none
unfolding find values
no_upgrade = refl

response_fits : length (response_text response) < 2 ^ 31
unfolding response_text
response_fits = omega arith

wrote_response :
    (w' : BufWriter log) × (encode_response (λ h. h) writer response fresh_writer
      ≡ done (ok tt, w'))
    × IsReady log w'
    × (w'.io ≡ response_text response)
wrote_response =
    encode_response_lem (λ h. h) writer response fresh_writer no_upgrade response_fits
      fresh_writer-IsReady

-- The text of the response, in the buffer of a reader.
abbrev response_bytes : List ℕ
response_bytes =
    version_10
    ++ 0x20
      ∷ 0x32
      ∷ 0x30
      ∷ 0x30
      ∷ 0x20
      ∷ 0x4F
      ∷ 0x4B
      ∷ 0x0D
      ∷ 0x0A
      ∷ (content_length ++ 0x3A ∷ 0x20 ∷ 0x32 ∷ 0x0D ∷ 0x0A ∷ 0x0D ∷ 0x0A ∷ 0x68 ∷ 0x69 ∷ [])

wrote_response_bytes : (wrote_response.0).io ≡ response_bytes
unfolding response_text
wrote_response_bytes = wrote_response.3

abbrev answered_reader : BufReader trickle
answered_reader = record {
  io = [];
  r_stream = record { buf = response_bytes ++ 0 ∷ []; r_pos = 0; w_pos = length response_bytes };
}

answered_reader-IsText : IsText trickle answered_reader
answered_reader-IsText = record {
  valid = record { ordered = omega arith; within = omega arith };
  readable = inr (record {
    behind = [];
    nul = refl;
    no_nul = passes-Passes (λ c. c == 0) response_bytes refl;
  });
}

decode-encode_response_example :
    Reads
      (text_bytes trickle)
      (decode_response (text_reader trickle) (λ h. []) empty_response answered_reader)
      (record { status_code = pos 200; status_text = []; headers = length_header 2; body = [] })
      (0x68 ∷ 0x69 ∷ [])
decode-encode_response_example =
    decode-encode_response (λ h. h) writer (text_reader trickle) (λ h. []) empty_response response
      200 [] fresh_writer (wrote_response.0) answered_reader refl refl no_upgrade refl (omega arith)
      (refl, (refl, tt)) response_fits refl fresh_writer-IsReady refl (wrote_response.1)
      answered_reader-IsText (ap (λ t. t ++ []) (sym wrote_response_bytes))

-- A server with one route, whose handler answers "hi".
abbrev routes : List Route
routes = (root, λ req resp. record resp { body = 0x68 ∷ 0x69 ∷ [] }) ∷ []

abbrev answer : HttpResponse
answer = record {
  status_code = pos 200;
  status_text = ok_text;
  headers = [];
  body = 0x68 ∷ 0x69 ∷ [];
}

answered : respond same_text (pos 0) routes request ≡ answer
unfolding respond
answered = refl

not_answered : respond same_text (pos 0) [] request ≡ record {
  status_code = pos 404;
  status_text = not_found_text;
  headers = [];
  body = not_found_body;
}
unfolding respond
not_answered = refl

-- The second of two routes answers, and without it none does.
abbrev other : List Route
other = (get, λ req resp. resp) ∷ []

respond_lem_example :
    (respond same_text (pos 0) (other ++ routes) request ≡ answer)
    × (respond same_text (pos 0) other request ≡ Routing.not_found same_text (pos 0) request)
respond_lem_example =
    respond_lem same_text (pos 0) request other [] root
      (λ req resp. record resp { body = 0x68 ∷ 0x69 ∷ [] }) (refl, tt) refl
