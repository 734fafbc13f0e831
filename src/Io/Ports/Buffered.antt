-- ===== src/Io/Ports/Buffered.antt =====
-- `BufReader` over a steady stream and `BufWriter` are such a reader and such a writer; a `BufReader` that has all of a text
-- in its buffer is a reader of texts, for which one round of `read_until` is enough.
use uvio.Prelude.{ℕ, ◌^◌, ◌<◌, ◌≡◌, ◌∙◌, ap, List, ◌++◌, length, append-nil}
use uvio.Common.Result.{ok, done}
use uvio.Io.Buffer.Valid.{IsValid}
use uvio.Io.Source.{Source}
use uvio.Io.Sink.{Sink}
use uvio.Io.BufReader.{BufReader, read_exact}
use uvio.Io.BufReader.Exact.{pending, read_exact_lem}
use uvio.Io.BufWriter.{BufWriter, write, flush}
use uvio.Io.BufWriter.Order.{IsReady, written, write_lem, flush_lem}
use uvio.Io.BufReader.Text.{IsText, read_exact-IsText, read_until-IsText}
use uvio.Io.BufReader.{read_until}
use uvio.Io.Buffer.{r_slice}
use uvio.Io.Ports.{ByteReader, TextReader, ByteWriter}
use native.Mathlib.Nat.{le_refl}

module _ (S : Source) where
  pub law_of_read_exact :
      (buf xs more : List ℕ) (r : BufReader S)
      → IsValid r.r_stream × S.Steady r.io
      → length xs ≡ length buf
      → pending S r ≡ xs ++ more
      → (r' : BufReader S) × (read_exact S (length buf) buf r ≡ done (ok tt, xs, r'))
        × (IsValid r'.r_stream × S.Steady r'.io)
        × (pending S r' ≡ more)
  law_of_read_exact buf xs more r (v, st) l e =
      let (r', run, v', p, _, still) =
        read_exact_lem S (length buf) buf xs more r v (le_refl _) l st e in
      (r', run, (v', still), p)

  abbrev pub buffered_reader : ByteReader
  buffered_reader = record {
    State = BufReader S;
    read_exact = λ buf r. read_exact S (length buf) buf r;
    IsReady = λ r. IsValid r.r_stream × S.Steady r.io;
    pending = pending S;
    read_exact_law = law_of_read_exact;
  }

  abbrev pub text_bytes : ByteReader
  text_bytes = record {
    State = BufReader S;
    read_exact = λ buf r. read_exact S (length buf) buf r;
    IsReady = IsText S;
    pending = λ r. r_slice r.r_stream;
    read_exact_law = read_exact-IsText S;
  }

  abbrev pub text_reader : TextReader
  text_reader = record {
    bytes = text_bytes;
    read_until = λ buf flag r. read_until S 1 buf flag r;
    read_until_law = read_until-IsText S;
  }

module _ (K : Sink) where
  pub law_of_write :
      (buf : List ℕ) (w : BufWriter K)
      → length buf < 2 ^ 31
      → IsReady K w
      → (n : ℕ) × (w' : BufWriter K) × (write K buf w ≡ done (ok n, w'))
        × IsReady K w'
        × (written K w' ≡ written K w ++ buf)
  law_of_write buf w small h =
      let (w', run, r, all) = write_lem K buf w small h in (_, w', run, r, all)

  pub law_of_flush :
      (w : BufWriter K)
      → IsReady K w
      → (w' : BufWriter K) × (flush K 2 w ≡ done (ok tt, w'))
        × IsReady K w'
        × (written K w' ≡ written K w)
        × (K.sent w'.io ≡ written K w)
  law_of_flush w h =
      let (w', run, r, s, none_left) = flush_lem K 0 w h in
      (w', run, r, ap (λ t. K.sent w'.io ++ t) none_left ∙ append-nil (K.sent w'.io) ∙ s, s)

  abbrev pub buffered_writer : ByteWriter
  buffered_writer = record {
    State = BufWriter K;
    write = write K;
    flush = flush K 2;
    IsReady = IsReady K;
    written = written K;
    sent = λ w. K.sent w.io;
    write_law = law_of_write;
    flush_law = law_of_flush;
  }
