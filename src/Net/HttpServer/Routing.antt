-- ===== src/Net/HttpServer/Routing.antt =====
-- Which route answers a request.
use uvio.Prelude.{ℕ, ◌≡◌, refl, Bool, true, false, List, [], ◌∷◌, ◌++◌, All}
use uvio.Common.Stoi.{ℤ, pos}
use uvio.Codec.Http.Encode.{HttpRequest}
use uvio.Codec.Http.Decode.{HttpResponse}
use uvio.Net.HttpServer.{
  Route, new_response, ok_text, not_found_text, not_found_body, try_routes, respond,
}

module _ (regex_match : List ℕ → List ℕ → Bool) (code : ℤ) (req : HttpRequest) where
  -- None of the routes matches the uri of the request.
  abbrev pub NoneMatches : List Route → Type 0
  NoneMatches routes = All (λ route. regex_match req.uri route.0 ≡ false) routes

  -- The answer of a handler, and the answer without one.
  abbrev pub answer : (HttpRequest → HttpResponse → HttpResponse) → HttpResponse
  answer handler = record (handler req (new_response code)) {
    status_code = pos 200;
    status_text = ok_text;
  }

  abbrev pub not_found : HttpResponse
  not_found = record {
    status_code = pos 404;
    status_text = not_found_text;
    headers = [];
    body = not_found_body;
  }

  skip_routes :
      (before routes : List Route)
      → NoneMatches before
      → try_routes regex_match code (before ++ routes) req ≡ try_routes regex_match code routes req
  unfolding try_routes
  skip_routes [] routes h = refl
  skip_routes ((pattern, handler) ∷ before) routes (miss, h) = rw miss (skip_routes before routes h)

  try_none :
      (routes : List Route)
      → NoneMatches routes
      → try_routes regex_match code routes req ≡ (new_response code, false)
  unfolding try_routes
  try_none [] h = refl
  try_none ((pattern, handler) ∷ routes) (miss, h) = rw miss (try_none routes h)

  -- If none of the routes in `before` matches and the next one does, that one answers: its handler
  -- fills the response, whose status is then 200 and "OK", whatever the handler has set and whatever
  -- routes are behind. If there is no other route, the answer is 404 with the text and body for it.
  pub respond_lem :
      (before after : List Route) (pattern : List ℕ)
      (handler : HttpRequest → HttpResponse → HttpResponse)
      → NoneMatches before
      → regex_match req.uri pattern ≡ true
      → (respond regex_match code (before ++ (pattern, handler) ∷ after) req ≡ answer handler)
        × (respond regex_match code before req ≡ not_found)
  unfolding respond try_routes
  respond_lem before after pattern handler h hit = (
    rw (skip_routes before ((pattern, handler) ∷ after) h) (rw hit refl),
    rw (try_none before h) refl,
  )
