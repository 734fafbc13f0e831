-- ===== src/Io/BufReader/Loss.antt =====
-- `ImplBufRead::read` into a span that is larger than the buffer, at the end of the stream.
use uvio.Prelude.{
  length-overwrite, nil_of_length, ℕ, ◌<◌, ◌≡◌, ap, true, ltb, List, [], length, drop, overwrite,
  min, arith, length-append, length-drop,
}
use uvio.Common.Result.{unexpected, done}
use uvio.Io.Buffer.{r_remaining, r_slice, capacity}
use uvio.Io.Buffer.Valid.{IsValid, length-r_slice, taken, left, write_to_lem}
use uvio.Io.Source.{Source}
use uvio.Io.BufReader.{BufReader, read, read_direct}

module _ (S : Source) where
  -- At the end of the stream `read` into a span that is larger than a valid buffer fails with the
  -- stream's error even if bytes are buffered, and these bytes have left the buffer all the same.
  pub read_loses :
      (fuel : ℕ) (buf : List ℕ) (r : BufReader S)
      → IsValid r.r_stream
      → capacity r.r_stream < length buf
      → S.rest r.io ≡ []
      → (dst : List ℕ) × (r' : BufReader S) × (read S fuel buf r
          ≡ done (unexpected (S.stop r.io), dst, r'))
        × (r_slice r'.r_stream ≡ [])
        × (S.rest r'.io ≡ [])
  unfolding read
  read_loses fuel buf r v big none_left =
      let b = r.r_stream in
      let (run, v', split, size, cap) = write_to_lem buf v in
      let n = min (r_remaining b) (length buf) in
      let front = overwrite 0 (taken (length buf) b) buf in
      let o = length-overwrite 0 (taken (length buf) b) buf in
      let room : 0 < length (drop n front) =
        omega (arith, length-drop n front, o, length-r_slice v, v.within, v.ordered) in
      let got = S.read_end (length (drop n front)) r.io room none_left in
      let t : ltb (capacity b) (length buf) ≡ true = grind arith in
      let gone : r_slice (left (length buf) b) ≡ [] = nil_of_length _ (
        omega (
          arith,
          length-append (taken (length buf) b) (r_slice (left (length buf) b)),
          ap length split,
          size,
          length-r_slice v,
          v.within,
        )) in
      (
        front,
        record { io = r.io; r_stream = left (length buf) b },
        rw t (
            rw (run, read_direct)
              (rw got (λ i. done (
                unexpected (S.stop r.io),
                front,
                record { io = (got i).1; r_stream = left (length buf) b },
              )))),
        gone,
        none_left,
      )
