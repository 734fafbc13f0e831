-- ===== src/Tests/Streams.antt =====
-- A stream that gives one byte for each read, and one that keeps all that is written to it.
use uvio.Prelude.{ℕ, zero, suc, ◌≤◌, ◌<◌, ◌≡◌, ◌≢◌, refl, List, [], ◌∷◌, ◌++◌, length, arith}
use uvio.Common.Result.{Error, Result, ok, unexpected}
use uvio.Io.Source.{Source}
use uvio.Io.Sink.{Sink}
use uvio.Io.Ports.{ByteReader, ByteWriter}
use uvio.Io.Ports.Buffered.{buffered_reader, buffered_writer}

abbrev pub eof : Error
eof = record { error_code = 8000 }

abbrev pub trickle_read : ℕ → List ℕ → Result (List ℕ) × List ℕ
trickle_read n [] = (unexpected eof, [])
trickle_read zero (x ∷ xs) = (ok [], x ∷ xs)
trickle_read (suc n) (x ∷ xs) = (ok (x ∷ []), xs)

pub trickle_some :
    (n : ℕ) (io : List ℕ)
    → Unit {0}
    → 0 < n
    → io ≢ []
    → (xs : List ℕ) × (io' : List ℕ) × (trickle_read n io ≡ (ok xs, io'))
      × (0 < length xs)
      × (length xs ≤ n)
      × (io ≡ xs ++ io')
      × (eof ≡ eof)
      × Unit {0}
trickle_some n [] st h more = absurd (more refl)
trickle_some zero (x ∷ io) st h more = absurd (omega arith)
trickle_some (suc n) (x ∷ io) st h more =
    (x ∷ [], io, refl, omega arith, omega arith, refl, refl, tt)

pub trickle_end : (n : ℕ) (io : List ℕ) → 0 < n → io ≡ [] → trickle_read n io ≡ (unexpected eof, io)
trickle_end n [] h e = refl
trickle_end n (x ∷ io) h e = cc

abbrev pub trickle : Source
trickle = record {
  Io = List ℕ;
  read = trickle_read;
  rest = λ io. io;
  stop = λ io. eof;
  Steady = λ io. Unit {0};
  read_some = trickle_some;
  read_end = trickle_end;
}

abbrev pub log_write : List ℕ → List ℕ → Result ℕ × List ℕ
log_write xs io = (ok (length xs), io ++ xs)

pub log_write_open :
    (xs io : List ℕ)
    → Unit {0}
    → 0 < length xs
    → (io' : List ℕ) × (log_write xs io ≡ (ok (length xs), io')) × Unit {0} × (io' ≡ io ++ xs)
log_write_open xs io h pos = (io ++ xs, refl, tt, refl)

abbrev pub log : Sink
log = record {
  Io = List ℕ;
  write = log_write;
  sent = λ io. io;
  IsOpen = λ io. Unit {0};
  write_open = log_write_open;
}

-- The codecs' ports over these.
abbrev pub reader : ByteReader
reader = buffered_reader trickle

abbrev pub writer : ByteWriter
writer = buffered_writer log
