-- ===== src/Net/Websocket.antt =====
-- uvio/net/websocket/websocket_server.hpp and websocket_client.hpp: `handle_websocket` of both sides,
-- and uvio/net/websocket/websocket_frame.hpp: the framing that they hand to their handlers. SHA-1 and
-- base64 are those of OpenSSL, which the build with HAS_SSL calls, and are parameters; so are the
-- handlers, and what the status code of a response holds before it is set.
pub mod Texts
pub mod Programs
pub mod Rounds
use uvio.Prelude.{ℕ, Bool, Option, none, some, List, [], ◌∷◌, ◌++◌, if◌then◌else◌}
use uvio.Common.Result.{Result, ok, unexpected, Run, done, ◌>>=◌ as run_bind}
use uvio.Common.Coro.{Coro}
use uvio.Common.Stoi.{ℤ, pos}
use uvio.Io.Ports.{TextReader, ByteReader, ByteWriter}
use uvio.Net.Endian.{ByteOrder}
use uvio.Net.HttpServer.{new_request, new_response, not_found_body}
use uvio.Codec.Http.{HttpHeader, add, find}
use uvio.Codec.Http.Encode.{HttpRequest, encode_request}
use uvio.Codec.Http.Decode.{
  HttpResponse, upgrade, same_text, decode_request, decode_response, encode_response,
}
use uvio.Codec.Websocket.{text, close, WebsocketFrame, decode, encode}
use uvio.Net.Websocket.Texts.{
  websocket_text, connection, security_key, asked_key, version_name, version_13, accept_name,
  user_agent, agent, get_text, root_uri, client_key, guid,
}

-- `WebsocketFramed::recv`, `send` and `close`. `send` and `close` give what the caller's message holds
-- afterwards.
unfoldable pub recv : ByteOrder → (R : ByteReader) → (client_side : Bool) → Coro R.State (List ℕ)
unfolding decode
recv order R client_side = decode order R client_side []

unfoldable pub send : ByteOrder → (W : ByteWriter) → Bool → List ℕ → Coro W.State (List ℕ)
unfolding encode
send order W client_side message =
    encode order W client_side (record { opcode = text; message = message })

unfoldable pub close_connection : ByteOrder → (W : ByteWriter) → Bool → Coro W.State (List ℕ)
unfolding encode
close_connection order W client_side =
    encode order W client_side (record { opcode = close; message = [] })

-- `HandlerFunc` with its uri, in the map of the routes.
abbrev pub PlainRoute : Type 0
PlainRoute = List ℕ × (HttpRequest → HttpResponse → HttpResponse)

-- The headers that the client asks with, and those that the server accepts with.
unfoldable pub asked_headers : HttpHeader
unfolding add
asked_headers = add user_agent agent (
    add version_name version_13
      (add security_key client_key (add connection upgrade (add upgrade websocket_text []))))

unfoldable pub accepted_headers : List ℕ → HttpHeader
unfolding add
accepted_headers accept =
    add accept_name accept
      (add version_name version_13 (add connection upgrade (add upgrade websocket_text [])))

-- The request of the client.
abbrev pub asked : HttpRequest
asked = record { method = get_text; uri = root_uri; headers = asked_headers; body = [] }

module _ (R : TextReader) (W : ByteWriter) where
  -- A handler for the messages: the reader and the writer when it returns.
  abbrev pub Handler : Type 0
  Handler = R.bytes.State → W.State → Run (R.bytes.State × W.State)

  abbrev pub call_handler : Option Handler → Handler
  call_handler none reader writer = done (reader, writer)
  call_handler (some handler) reader writer = handler reader writer

module _ (code : ℤ) where
  -- The response to a request without an Upgrade header.
  unfoldable pub plain_response : List PlainRoute → HttpRequest → HttpResponse
  plain_response [] req = record (new_response code) {
    body = not_found_body;
    status_code = pos 404;
  }
  plain_response ((uri, handler) ∷ routes) req =
      let rest = plain_response routes req in
      if same_text uri req.uri
      then record (handler req (new_response code)) { status_code = pos 200 }
      else rest

  module _ (sha1 base64_encode : List ℕ → List ℕ) where
    -- The response that accepts a key.
    unfoldable pub accepted : List ℕ → HttpResponse
    unfolding accepted_headers
    accepted key = record (new_response code) {
      headers = accepted_headers (base64_encode (sha1 (key ++ guid)));
    }

    module _ (R : TextReader) (W : ByteWriter) (listed moved : HttpHeader → HttpHeader) where
      -- `WebsocketServer::handle_websocket`.
      unfoldable pub serve_websocket : List PlainRoute → Option (Handler R W) → Handler R W
      unfolding decode_request encode_response find plain_response accepted
      serve_websocket routes handler reader writer =
          run_bind (decode_request R moved new_request reader) λ (ret, reader'). elim ret [
            | unexpected e ↦ done (reader', writer)
            | ok req ↦ elim (find upgrade req.headers) [
              | none ↦
                  run_bind (encode_response listed W (plain_response routes req) writer)
                    λ (sent, writer'). done (reader', writer')
              | some asked_for ↦ elim (find asked_key req.headers) [
                | none ↦ done (reader', writer)
                | some key ↦
                    run_bind (encode_response listed W (accepted key) writer)
                      λ (sent, writer'). call_handler R W handler reader' writer'
              ]
            ]
          ]

  module _ (R : TextReader) (W : ByteWriter) (listed moved : HttpHeader → HttpHeader) where
    -- `WebsocketClient::handle_websocket`.
    unfoldable pub ask_websocket : Option (Handler R W) → Handler R W
    unfolding encode_request decode_response asked_headers
    ask_websocket handler reader writer =
        run_bind (encode_request listed W asked writer) λ (sent, writer'). elim sent [
          | unexpected e ↦ done (reader, writer')
          | ok u ↦ run_bind (decode_response R moved (new_response code) reader) λ (ret, reader').
              elim ret [
                | unexpected e ↦ done (reader', writer')
                | ok resp ↦ call_handler R W handler reader' writer'
              ]
        ]
