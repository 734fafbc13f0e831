-- ===== src/Codec/Http/Respond.antt =====
-- A response that `HttpCodec::encode` writes is what `HttpCodec::decode` reads, but for its status
-- text and its body.
use uvio.Prelude.{
  ℕ, suc, ◌≤◌, ◌<◌, ◌^◌, ◌≡◌, refl, sym, ap, ◌∙◌, inr, Bool, true, false, List, [], ◌∷◌, ◌++◌,
  append_assoc, none, length, All, ◌==◌, arith, length-append, leb,
}
use uvio.Common.Result.{ok, done}
use uvio.Common.Stoi.{pos, to_string}
use uvio.Common.Stoi.Decimal.{
  Digits, to_string-Digits, to_string-cons, to_string-snoc, length-to_string, stoi-to_string,
}
use uvio.Io.Buffer.{find}
use uvio.Io.Ports.{TextReader, ByteWriter}
use uvio.Codec.Bytes.{Reads, write_span_lem}
use uvio.Codec.Http as Http
use uvio.Codec.Http.{HttpHeader, is_blank, is_line_end, is_space, parse_line}
use uvio.Codec.Http.Line.{Passes, parse_line_lem}
use uvio.Codec.Http.Headers.{IsPlain, IsTrimmed, All-append}
use uvio.Codec.Http.Encode.{line_break, headers_text}
use uvio.Codec.Http.Flag.{OneLine, OneLine-of, find-line_break}
use uvio.Codec.Http.Decode.{
  HttpResponse, content_length, upgrade, version_10, int_text, response_text, http_response,
  encode_response, decode_response,
}
use uvio.Codec.Http.Compose.{read_text_lem, read_fields_lem}

-- Digits are neither blanks nor line ends nor white space nor colons.
Digits-Passes :
    (stop : ℕ → Bool) (xs : List ℕ)
    → ((c : ℕ) → 0x30 < suc c → c < 0x3A → stop c ≡ false)
    → Digits xs
    → Passes stop xs
Digits-Passes stop [] h d = tt
Digits-Passes stop (x ∷ xs) h ((low, high), d) = (h x low high, Digits-Passes stop xs h d)

digit_not_blank : (c : ℕ) → 0x30 < suc c → c < 0x3A → is_blank c ≡ false
digit_not_blank c low high = grind arith

digit_not_line : (c : ℕ) → 0x30 < suc c → c < 0x3A → is_line_end c ≡ false
digit_not_line c low high =
    let a : (c == 0x0D) ≡ false = grind arith in
    let b : (c == 0x0A) ≡ false = grind arith in rw (a, b) refl

digit_not_space : (c : ℕ) → 0x30 < suc c → c < 0x3A → is_space c ≡ false
unfolding is_space
digit_not_space c low high =
    let a : (c == 0x20) ≡ false = grind arith in
    let b : leb c 0x0D ≡ false = grind arith in
    let d : leb 0x09 c ≡ true = grind arith in rw (a, b, d) refl

last_digit : (ds : List ℕ) (d : ℕ) → Digits (ds ++ d ∷ []) → (0x30 < suc d) × (d < 0x3A)
last_digit [] d h = h.0
last_digit (x ∷ ds) d h = last_digit ds d h.1

to_string-IsTrimmed : (n : ℕ) → IsTrimmed (to_string n)
to_string-IsTrimmed n =
    let (c, cs, e) = to_string-cons n in
    let (ds, d, e') = to_string-snoc n in
    let front : Digits (c ∷ cs) = rw e at (to_string-Digits n) in
    let back : Digits (ds ++ d ∷ []) = rw e' at (to_string-Digits n) in
    let (low, high) = last_digit ds d back in
    (c, cs, ds, d, e, e', digit_not_space c (front.0.0) (front.0.1), digit_not_space d low high)

-- The one header that `http_response` writes.
abbrev pub length_header : ℕ → HttpHeader
length_header n = (content_length, to_string n) ∷ []

content_length-IsTrimmed : IsTrimmed content_length
unfolding is_space
content_length-IsTrimmed = (
  0x43,
  0x6F ∷ 0x6E ∷ 0x74 ∷ 0x65 ∷ 0x6E ∷ 0x74 ∷ 0x2D ∷ 0x4C ∷ 0x65 ∷ 0x6E ∷ 0x67 ∷ 0x74 ∷ 0x68 ∷ [],
  0x43 ∷ 0x6F ∷ 0x6E ∷ 0x74 ∷ 0x65 ∷ 0x6E ∷ 0x74 ∷ 0x2D ∷ 0x4C ∷ 0x65 ∷ 0x6E ∷ 0x67 ∷ 0x74 ∷ [],
  0x68,
  refl,
  refl,
  refl,
  refl,
)

length_header-IsPlain : (n : ℕ) → All IsPlain (length_header n)
length_header-IsPlain n = (
  record {
    key_trimmed = content_length-IsTrimmed;
    key_colon = (
      refl,
      (
        refl,
        (
          refl,
          (
            refl,
            (refl, (refl, (refl, (refl, (refl, (refl, (refl, (refl, (refl, (refl, tt)))))))))),
          ),
        ),
      ),
    );
    key_line = (
      refl,
      (
        refl,
        (
          refl,
          (
            refl,
            (refl, (refl, (refl, (refl, (refl, (refl, (refl, (refl, (refl, (refl, tt)))))))))),
          ),
        ),
      ),
    );
    value_trimmed = inr (to_string-IsTrimmed n);
    value_line = Digits-Passes is_line_end (to_string n) digit_not_line (to_string-Digits n);
  },
  tt,
)

abbrev status_line : ℕ → List ℕ → List ℕ
status_line n status_text = version_10 ++ 0x20 ∷ (to_string n ++ 0x20 ∷ status_text)

status_line-OneLine :
    (n : ℕ) (status_text : List ℕ)
    → Passes is_line_end status_text
    → OneLine (status_line n status_text)
status_line-OneLine n status_text p = OneLine-of (status_line n status_text) (
    All-append is_line_end version_10 (0x20 ∷ (to_string n ++ 0x20 ∷ status_text))
      (refl, (refl, (refl, (refl, (refl, (refl, (refl, (refl, tt))))))))
      (
        refl,
        All-append is_line_end (to_string n) (0x20 ∷ status_text)
            (Digits-Passes is_line_end (to_string n) digit_not_line (to_string-Digits n)) (refl, p),
      ))

cut_lem :
    (v code text name size body : List ℕ)
    → v
        ++ 0x20
          ∷ (code
              ++ 0x20
                ∷ (text
                    ++ 0x0D
                      ∷ 0x0A
                      ∷ (name ++ 0x3A ∷ 0x20 ∷ (size ++ 0x0D ∷ 0x0A ∷ 0x0D ∷ 0x0A ∷ body))))
      ≡ ((v ++ 0x20 ∷ (code ++ 0x20 ∷ text)) ++ line_break)
        ++ ((name ++ 0x3A ∷ 0x20 ∷ (size ++ 0x0D ∷ 0x0A ∷ line_break)) ++ body)
cut_lem v code text name size body = simp append_assoc refl

-- The text, cut as the decoder reads it.
text_cut :
    (resp : HttpResponse) (n : ℕ)
    → resp.status_code ≡ pos n
    → response_text resp
      ≡ (status_line n resp.status_text ++ line_break)
        ++ (headers_text (length_header (length resp.body)) ++ resp.body)
unfolding response_text int_text headers_text
text_cut resp n e =
    ap
      (λ t.
        version_10
        ++ 0x20
          ∷ (int_text t
              ++ 0x20
                ∷ (resp.status_text
                    ++ 0x0D
                      ∷ 0x0A
                      ∷ (content_length
                          ++ 0x3A
                            ∷ 0x20
                            ∷ (to_string (length resp.body)
                                ++ 0x0D ∷ 0x0A ∷ 0x0D ∷ 0x0A ∷ resp.body)))))
      e
    ∙ cut_lem version_10 (to_string n) resp.status_text content_length
        (to_string (length resp.body)) resp.body

status_line_lem :
    (n : ℕ) (status_text : List ℕ)
    → Passes is_line_end status_text
    → parse_line (status_line n status_text ++ line_break)
      ≡ ok (version_10, to_string n, status_text)
status_line_lem n status_text p =
    ap parse_line (
      append_assoc version_10 (0x20 ∷ (to_string n ++ 0x20 ∷ status_text)) line_break
      ∙ ap (λ t. version_10 ++ 0x20 ∷ t)
          (append_assoc (to_string n) (0x20 ∷ status_text) line_break))
    ∙ parse_line_lem version_10 (to_string n) status_text 0x0D (0x0A ∷ [])
        (refl, (refl, (refl, (refl, (refl, (refl, (refl, (refl, tt))))))))
        (Digits-Passes is_blank (to_string n) digit_not_blank (to_string-Digits n)) p refl

length-headers : (n : ℕ) → n < 2 ^ 63 → length (headers_text (length_header n)) < 2 ^ 64
unfolding headers_text
length-headers n h =
    omega (arith, length-append (to_string n) (line_break ++ line_break), length-to_string n)

length-response_text : (resp : HttpResponse) → length resp.body ≤ length (response_text resp)
unfolding response_text
length-response_text resp =
    let size = to_string (length resp.body) in
    let back = size ++ 0x0D ∷ 0x0A ∷ 0x0D ∷ 0x0A ∷ resp.body in
    let name = content_length ++ 0x3A ∷ 0x20 ∷ back in
    let text = resp.status_text ++ 0x0D ∷ 0x0A ∷ name in
    omega (
      arith,
      length-append version_10 (0x20 ∷ (int_text resp.status_code ++ 0x20 ∷ text)),
      length-append (int_text resp.status_code) (0x20 ∷ text),
      length-append resp.status_text (0x0D ∷ 0x0A ∷ name),
      length-append content_length (0x3A ∷ 0x20 ∷ back),
      length-append size (0x0D ∷ 0x0A ∷ 0x0D ∷ 0x0A ∷ resp.body),
    )

module _ (W : ByteWriter) where
  http_response_lem :
      (resp : HttpResponse) (s : W.State)
      → length (response_text resp) < 2 ^ 31
      → W.IsReady s
      → (s' : W.State) × (http_response W resp s ≡ done (ok tt, s'))
        × W.IsReady s'
        × (W.sent s' ≡ W.written s ++ response_text resp)
  unfolding http_response
  http_response_lem resp s small h =
      let (s1, run1, h1, all1) = write_span_lem W (response_text resp) s small h in
      let (s2, run2, h2, _, gone) = W.flush_law s1 h1 in (s2, rw run1 run2, h2, gone ∙ all1)

module _ (listed : HttpHeader → HttpHeader) (W : ByteWriter) where
  encode_plain :
      (resp : HttpResponse)
      → Http.find upgrade resp.headers ≡ none
      → encode_response listed W resp ≡ http_response W resp
  unfolding encode_response
  encode_plain resp none_up = rw (none_up, encode_response) refl

  pub encode_response_lem :
      (resp : HttpResponse) (s : W.State)
      → Http.find upgrade resp.headers ≡ none
      → length (response_text resp) < 2 ^ 31
      → W.IsReady s
      → (s' : W.State) × (encode_response listed W resp s ≡ done (ok tt, s'))
        × W.IsReady s'
        × (W.sent s' ≡ W.written s ++ response_text resp)
  encode_response_lem resp s plain small h =
      let (s', run, h', out) = http_response_lem W resp s small h in
      (s', ap (λ m. m s) (encode_plain resp plain) ∙ run, h', out)

module _ (R : TextReader) (moved : HttpHeader → HttpHeader) where
  open R use {bytes}

  decode_response_lem :
      (old resp : HttpResponse) (n : ℕ) (more : List ℕ) (s : bytes.State)
      → old.headers ≡ []
      → old.body ≡ []
      → resp.status_code ≡ pos n
      → n < 2 ^ 31
      → Passes is_line_end resp.status_text
      → length resp.body < 2 ^ 63
      → moved (length_header (length resp.body)) ≡ []
      → bytes.IsReady s
      → bytes.pending s ≡ response_text resp ++ more
      → Reads bytes
          (decode_response R moved old s)
          (record old {
            status_code = pos n;
            headers = length_header (length resp.body);
            body = [];
          })
          (resp.body ++ more)
  unfolding decode_response
  decode_response_lem old resp n more s oh ob code small one fits gone h e =
      let first = status_line n resp.status_text in
      let header = length_header (length resp.body) in
      let rest = headers_text header ++ (resp.body ++ more) in
      let pend : bytes.pending s ≡ (first ++ line_break) ++ rest =
        e
        ∙ ap (λ t. t ++ more) (text_cut resp n code)
        ∙ append_assoc (first ++ line_break) (headers_text header ++ resp.body) more
        ∙ ap (λ t. (first ++ line_break) ++ t)
            (append_assoc (headers_text header) resp.body more) in
      let (s1, run1, h1, p1) =
        read_text_lem R moved [] (first ++ line_break) line_break rest (length first) s h pend
          (omega arith) (length-append first line_break)
          (ap (find line_break) (append_assoc first line_break rest)
            ∙ find-line_break first rest (status_line-OneLine n resp.status_text one)) in
      let (s2, run2, h2, p2) =
        read_fields_lem R moved header (resp.body ++ more) s1
          (length_header-IsPlain (length resp.body)) (length-headers (length resp.body) fits) gone
          h1 p1 in
      (
        s2,
        rw run1 (
            rw (status_line_lem n resp.status_text one, stoi-to_string n small, oh, ob)
              (rw run2 refl)),
        h2,
        p2,
      )

-- What `encode` has written to a fresh writer for a response without an Upgrade header, with a status
-- code from 0 to 2 ^ 31 - 1, a status text without line ends and less than 2 ^ 31 bytes in all, `decode`
-- with a ready reader (a `BufReader` is one that has the bytes in its buffer, without a NUL and with
-- one behind them) reads into a response that is empty but for its status text: it succeeds with the status
-- code and the one header that was written, but if the map of the headers is empty after it was
-- moved from, the status text stays as it was and the body stays empty and is left to be read.
pub decode-encode_response :
    (listed : HttpHeader → HttpHeader) (W : ByteWriter) (R : TextReader)
    (moved : HttpHeader → HttpHeader) (old resp : HttpResponse) (n : ℕ) (more : List ℕ)
    (w w' : W.State) (r : R.bytes.State)
    → old.headers ≡ []
    → old.body ≡ []
    → Http.find upgrade resp.headers ≡ none
    → resp.status_code ≡ pos n
    → n < 2 ^ 31
    → Passes is_line_end resp.status_text
    → length (response_text resp) < 2 ^ 31
    → moved (length_header (length resp.body)) ≡ []
    → W.IsReady w
    → W.written w ≡ []
    → encode_response listed W resp w ≡ done (ok tt, w')
    → R.bytes.IsReady r
    → R.bytes.pending r ≡ W.sent w' ++ more
    → Reads R.bytes
        (decode_response R moved old r)
        (record old { status_code = pos n; headers = length_header (length resp.body); body = [] })
        (resp.body ++ more)
decode-encode_response listed W R moved old resp n more w w' r oh ob plain code small one fits gone
      hw fresh enc hr e =
    let (w1, run, _, out) = encode_response_lem listed W resp w plain fits hw in
    let short : length resp.body < 2 ^ 63 = let text = length-response_text resp in omega arith in
    let same : w1 ≡ w' = cc (run, enc) in
    decode_response_lem R moved old resp n more r oh ob code small one short gone hr (
      e
      ∙ ap (λ t. W.sent t ++ more) (sym same)
      ∙ ap (λ t. t ++ more) (out ∙ ap (λ t. t ++ response_text resp) fresh))
