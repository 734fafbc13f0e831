-- ===== src/Codec/Http.antt =====
-- uvio/codec/http.hpp and uvio/net/http/http_util.hpp: the parsers of a request's first line, of a
-- response's, and of the headers.
-- A view is over a `std::string`, whose terminator is what `line[line.size()]` reads.
pub mod Line
pub mod Trim
pub mod Headers
pub mod Plain
pub mod Total
pub mod Encode
pub mod Decode
pub mod Flag
pub mod Compose
pub mod Respond
pub mod RoundTrip
pub mod Find
use uvio.Prelude.{
  ℕ, zero, suc, ◌+◌, ◌-◌, ◌%◌, ◌^◌, Bool, true, false, not, ◌&&◌, ◌||◌, List, [], ◌∷◌, ◌++◌, Option,
  none, some, length, get_or, take, drop, ltb, leb, ◌==◌, if◌then◌else◌,
}
use uvio.Common.Result.{Result, ok, unexpected, uvio_error, unclassified, Run, done, hang}

-- `std::string_view::substr`, and the character at an index.
abbrev pub substr : List ℕ → ℕ → ℕ → List ℕ
substr s pos n = take n (drop pos s)

abbrev pub char_at : List ℕ → ℕ → ℕ
char_at s i = get_or s i 0

abbrev pub is_blank : ℕ → Bool
is_blank c = c == 0x20

abbrev pub is_line_end : ℕ → Bool
is_line_end c = (c == 0x0D) || (c == 0x0A)

-- The rounds of `while (end < line.size() && !stop(line[end])) ++end;` over what is left.
unfoldable pub rounds_until : (ℕ → Bool) → List ℕ → ℕ
rounds_until stop [] = 0
rounds_until stop (x ∷ xs) = if stop x then 0 else suc (rounds_until stop xs)

-- `end` after that loop.
unfoldable pub skip_until : (ℕ → Bool) → List ℕ → ℕ → ℕ
unfolding rounds_until
skip_until stop line end = end + rounds_until stop (drop end line)

-- `parse_request_line` and `parse_status_line`, which are the same but for their comments.
unfoldable pub parse_line : List ℕ → Result (List ℕ × List ℕ × List ℕ)
unfolding skip_until
parse_line line =
    let end1 = skip_until is_blank line 0 in
    let end2 = skip_until is_blank line (end1 + 1) in
    let end3 = skip_until is_line_end line (end2 + 1) in
    if not (char_at line end1 == 0x20)
    then unexpected (uvio_error unclassified)
    else if not (char_at line end2 == 0x20)
    then unexpected (uvio_error unclassified)
    else if not (char_at line end3 == 0x0D) && not (char_at line end3 == 0x0A)
    then unexpected (uvio_error unclassified)
    else ok (
      substr line 0 end1,
      substr line (end1 + 1) (end2 - (end1 + 1)),
      substr line (end2 + 1) (end3 - (end2 + 1)),
    )

-- `std::isspace` in the C locale.
unfoldable pub is_space : ℕ → Bool
is_space c = (c == 0x20) || (leb 0x09 c && leb c 0x0D)

-- The second loop of `trim`: `end` when it stops.
unfoldable pub trim_end : List ℕ → ℕ → ℕ → ℕ
unfolding is_space
trim_end str start zero = zero
trim_end str start (suc e) =
    let rest = trim_end str start e in
    if ltb start (suc e) && is_space (char_at str e) then rest else suc e

unfoldable pub trim : List ℕ → List ℕ
unfolding skip_until trim_end
trim str =
    let start = skip_until (λ c. not (is_space c)) str 0 in
    let end = trim_end str start (length str) in substr str start (end - start)

-- `HttpHeader`: the entries of the unordered multimap as they were added. The order in which a program
-- goes through them, which C++ leaves open, is a parameter of what writes them.
abbrev pub HttpHeader : Type 0
HttpHeader = List (List ℕ × List ℕ)

unfoldable pub add : List ℕ → List ℕ → HttpHeader → HttpHeader
add key value header = header ++ ((key, value) ∷ [])

-- `CaseInsensitiveEqual`, with `tolower` in the C locale.
unfoldable pub tolower : ℕ → ℕ
tolower c = if leb 0x41 c && leb c 0x5A then c + 0x20 else c

unfoldable pub case_insensitive_equal : List ℕ → List ℕ → Bool
unfolding tolower
case_insensitive_equal [] [] = true
case_insensitive_equal [] (y ∷ ys) = false
case_insensitive_equal (x ∷ xs) [] = false
case_insensitive_equal (x ∷ xs) (y ∷ ys) = (tolower x == tolower y) && case_insensitive_equal xs ys

-- `HttpHeader::find_all`: the values of all entries whose key is equal, if there is one.
unfoldable pub values : List ℕ → HttpHeader → List (List ℕ)
unfolding case_insensitive_equal
values key [] = []
values key ((k, v) ∷ header) =
    let rest = values key header in if case_insensitive_equal k key then v ∷ rest else rest

unfoldable pub find_all : List ℕ → HttpHeader → Option (List (List ℕ))
unfolding values
find_all key header = elim (values key header) [ [] ↦ none | v ∷ vs ↦ some (v ∷ vs) ]

-- `HttpHeader::find`: the value of the first of them.
unfoldable pub find : List ℕ → HttpHeader → Option (List ℕ)
unfolding values
find key header = elim (values key header) [ [] ↦ none | v ∷ vs ↦ some v ]

-- `std::string_view::find(char)`, from the start of what is left.
unfoldable pub find_char : ℕ → List ℕ → Option ℕ
find_char c [] = none
find_char c (x ∷ xs) =
    if x == c then some 0 else elim (find_char c xs) [ none ↦ none | some i ↦ some (suc i) ]

-- Subtraction of sizes.
abbrev pub sub64 : ℕ → ℕ → ℕ
sub64 a b = (a + 2 ^ 64 - b) % 2 ^ 64

-- The key and value of the line from `start` to `end`, if a colon follows `start`.
unfoldable pub add_line : List ℕ → ℕ → ℕ → HttpHeader → HttpHeader
unfolding trim find_char add
add_line headers start end header = elim (find_char 0x3A (drop start headers)) [
  | none ↦ header
  | some i ↦
      let colon_pos = start + i in
      add (trim (substr headers start (colon_pos - start)))
        (trim (substr headers (colon_pos + 1) (sub64 (sub64 end colon_pos) 1))) header
]

-- The `while` of `parse_headers`; `start` and `end` are one number at its head.
unfoldable pub parse_rounds : ℕ → List ℕ → ℕ → HttpHeader → Run HttpHeader
unfolding skip_until add_line
parse_rounds zero headers start header = hang
parse_rounds (suc fuel) headers start header =
    let end = skip_until is_line_end headers start in
    let header' = add_line headers start end header in
    let next = skip_until (λ c. not (is_line_end c)) headers end in
    let rest = parse_rounds fuel headers next header' in
    if ltb start (length headers) then rest else done header

-- Each round but the last goes forward, so that a round more than there are characters is enough.
unfoldable pub parse_headers : List ℕ → Run HttpHeader
unfolding parse_rounds
parse_headers headers = parse_rounds (suc (length headers)) headers 0 []
