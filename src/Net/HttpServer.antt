-- ===== src/Net/HttpServer.antt =====
-- uvio/net/http/http_server.hpp: `handle_http`, over uvio/net/http/http_frame.hpp. `std::regex_match`,
-- the handlers of the routes, and the order in which the map lists them are parameters, and so is
-- what the status code of a response holds before it is set.
pub mod Routing
use uvio.Prelude.{ℕ, Bool, true, false, Option, none, some, List, [], ◌∷◌, if◌then◌else◌}
use uvio.Common.Result.{Result, ok, unexpected, Run, done, ◌>>=◌ as run_bind}
use uvio.Common.Coro.{Coro}
use uvio.Common.Stoi.{ℤ, pos}
use uvio.Io.Ports.{TextReader, ByteWriter}
use uvio.Codec.Http.{HttpHeader}
use uvio.Codec.Http.Encode.{HttpRequest}
use uvio.Codec.Http.Decode.{HttpResponse, decode_request, encode_response}

-- A route: its pattern and its handler, which is handed the request and a response to fill.
abbrev pub Route : Type 0
Route = List ℕ × (HttpRequest → HttpResponse → HttpResponse)

-- `HttpRequest req;` and `HttpResponse resp;`.
abbrev pub new_request : HttpRequest
new_request = record { method = []; uri = []; headers = []; body = [] }

abbrev pub new_response : ℤ → HttpResponse
new_response code = record { status_code = code; status_text = []; headers = []; body = [] }

-- "OK", "Not Found", "Page not found".
abbrev pub ok_text : List ℕ
ok_text = 0x4F ∷ 0x4B ∷ []

abbrev pub not_found_text : List ℕ
not_found_text = 0x4E ∷ 0x6F ∷ 0x74 ∷ 0x20 ∷ 0x46 ∷ 0x6F ∷ 0x75 ∷ 0x6E ∷ 0x64 ∷ []

abbrev pub not_found_body : List ℕ
not_found_body =
    0x50 ∷ 0x61 ∷ 0x67 ∷ 0x65 ∷ 0x20 ∷ 0x6E ∷ 0x6F ∷ 0x74 ∷ 0x20 ∷ 0x66 ∷ 0x6F ∷ 0x75 ∷ 0x6E ∷ 0x64
    ∷ []

module _ (regex_match : List ℕ → List ℕ → Bool) (code : ℤ) where
  -- The loop over the routes: the response of the first that matches, and whether `match_` holds a
  -- match then.
  unfoldable pub try_routes : List Route → HttpRequest → HttpResponse × Bool
  try_routes [] req = (new_response code, false)
  try_routes ((pattern, handler) ∷ routes) req =
      let rest = try_routes routes req in
      if regex_match req.uri pattern
      then (
        record (handler req (new_response code)) { status_code = pos 200; status_text = ok_text },
        true,
      )
      else rest

  unfoldable pub respond : List Route → HttpRequest → HttpResponse
  unfolding try_routes
  respond routes req =
      let (resp, matched) = try_routes routes req in
      if matched then resp else record resp {
        status_code = pos 404;
        status_text = not_found_text;
        body = not_found_body;
      }

  -- `handle_http`: the reader and the writer when it returns.
  unfoldable pub handle_http :
      (R : TextReader) (W : ByteWriter)
      → (HttpHeader → HttpHeader)
      → (HttpHeader → HttpHeader)
      → List Route
      → R.bytes.State
      → W.State
      → Run (R.bytes.State × W.State)
  unfolding respond decode_request encode_response
  handle_http R W listed moved routes reader writer =
      run_bind (decode_request R moved new_request reader) λ (ret, reader'). elim ret [
        | unexpected e ↦ done (reader', writer)
        | ok req ↦
            run_bind (encode_response listed W (respond routes req) writer)
              λ (sent, writer'). done (reader', writer')
      ]
