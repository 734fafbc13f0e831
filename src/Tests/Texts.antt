-- ===== src/Tests/Texts.antt =====
-- A reader over a list of bytes that are all there, with its laws.
use uvio.Prelude.{
  ℕ, ◌≡◌, refl, sym, ap, ap₂, ◌∙◌, true, List, [], ◌++◌, length, take, drop, leb, if◌then◌else◌,
  arith, length-append, take-length_append, drop-length_append,
}
use uvio.Common.Result.{Result, ok, unexpected, Run, done}
use uvio.Io.Ports.{ByteReader}
use uvio.Tests.Streams.{eof}

abbrev pub list_read_exact : List ℕ → List ℕ → Run (Result (Unit {0}) × List ℕ × List ℕ)
list_read_exact buf s =
    if leb (length buf) (length s)
    then done (ok tt, take (length buf) s, drop (length buf) s)
    else done (unexpected eof, s, [])

pub list_read_exact_law :
    (buf xs more s : List ℕ)
    → Unit {0}
    → length xs ≡ length buf
    → s ≡ xs ++ more
    → (s' : List ℕ) × (list_read_exact buf s ≡ done (ok tt, xs, s')) × Unit {0} × (s' ≡ more)
list_read_exact_law buf xs more s u l e =
    let enough : leb (length buf) (length s) ≡ true =
      grind (arith, ap length e, length-append xs more) in
    let got : take (length buf) s ≡ xs = ap₂ take (sym l) e ∙ take-length_append xs more in
    let left : drop (length buf) s ≡ more = ap₂ drop (sym l) e ∙ drop-length_append xs more in
    (more, rw enough (λ i. done (ok tt, got i, left i)), tt, refl)

abbrev pub list_bytes : ByteReader
list_bytes = record {
  State = List ℕ;
  read_exact = list_read_exact;
  IsReady = λ s. Unit {0};
  pending = λ s. s;
  read_exact_law = list_read_exact_law;
}
