-- ===== src/Tests/Codec.antt =====
-- The codecs, over a buffered reader and a buffered writer of sixteen bytes.
use uvio.Prelude.{ℕ, ◌<◌, ◌^◌, ◌≡◌, refl, sym, ap, List, [], ◌∷◌, ◌++◌, arith}
use uvio.Common.Result.{ok, done}
use uvio.Io.BufReader.{BufReader}
use uvio.Io.BufWriter.{BufWriter}
use uvio.Io.BufWriter.Order.{IsReady}
use uvio.Net.Endian.{little_endian, hton64, ntoh64, hton32}
use uvio.Net.Endian.Swap.{ntoh64-hton64}
use uvio.Codec.Bytes.{Reads}
use uvio.Codec.FixedLength
use uvio.Codec.FixedLength.RoundTrip.{encode_fixed, decode-encode_fixed}
use uvio.Codec.LengthDelimited
use uvio.Codec.LengthDelimited.Varint.{groups}
use uvio.Codec.LengthDelimited.RoundTrip.{encode_delimited, decode-encode_delimited}
use uvio.Tests.Streams.{trickle, log, reader, writer}

abbrev pub fresh_writer : BufWriter log
fresh_writer = record { io = []; w_stream = record { buf = 0 ∷ 0 ∷ 0 ∷ []; r_pos = 0; w_pos = 0 } }

pub fresh_writer-IsReady : IsReady log fresh_writer
fresh_writer-IsReady = record { valid = omega arith; is_open = tt }

abbrev pub reader_of : List ℕ → BufReader trickle
reader_of bytes = record {
  io = bytes;
  r_stream = record { buf = 0 ∷ 0 ∷ 0 ∷ []; r_pos = 0; w_pos = 0 };
}

ntoh64-hton64_example :
    (ntoh64 little_endian (hton64 little_endian 0x0102) ≡ 0x0102)
    × (hton64 little_endian 0x0102 < 2 ^ 64)
ntoh64-hton64_example = ntoh64-hton64 little_endian 0x0102 (omega arith)

swapped : hton64 little_endian 0x0102 ≡ 0x0201000000000000
unfolding hton64
swapped = refl

abbrev message : List ℕ
message = 0x68 ∷ 0x69 ∷ []

abbrev sent_fixed : List ℕ
sent_fixed = 0 ∷ 0 ∷ 0 ∷ 2 ∷ 0x68 ∷ 0x69 ∷ []

wrote_fixed :
    (w' : BufWriter log) × (FixedLength.encode little_endian writer message fresh_writer
      ≡ done (ok tt, w'))
    × IsReady log w'
    × (w'.io ≡ sent_fixed)
unfolding hton32
wrote_fixed =
    encode_fixed little_endian writer message fresh_writer (omega arith) fresh_writer-IsReady

decode-encode_fixed_example :
    Reads reader
      (FixedLength.decode little_endian reader (1 ∷ []) (reader_of (sent_fixed ++ (9 ∷ []))))
      message
      (9 ∷ [])
decode-encode_fixed_example =
    decode-encode_fixed little_endian writer reader (1 ∷ []) message (9 ∷ []) fresh_writer
      (wrote_fixed.0) (reader_of (sent_fixed ++ (9 ∷ []))) (omega arith) fresh_writer-IsReady refl
      (wrote_fixed.1) (omega arith, tt) (sym (ap (λ t. t ++ (9 ∷ [])) (wrote_fixed.3)))

abbrev sent_delimited : List ℕ
sent_delimited = 128 ∷ 128 ∷ 128 ∷ 128 ∷ 128 ∷ 128 ∷ 128 ∷ 128 ∷ 2 ∷ 0x68 ∷ 0x69 ∷ []

wrote_delimited :
    (w' : BufWriter log) × (LengthDelimited.encode little_endian writer message fresh_writer
      ≡ done (ok tt, w'))
    × IsReady log w'
    × (w'.io ≡ sent_delimited)
    × ((writer).written w' ≡ (writer).sent w')
unfolding hton64 groups
wrote_delimited =
    encode_delimited little_endian writer message fresh_writer (omega arith) fresh_writer-IsReady

decode-encode_delimited_example :
    Reads reader
      (LengthDelimited.decode little_endian reader
        (1 ∷ [])
        (reader_of (sent_delimited ++ (9 ∷ []))))
      message
      (9 ∷ [])
decode-encode_delimited_example =
    decode-encode_delimited little_endian writer reader (1 ∷ []) message (9 ∷ []) fresh_writer
      (wrote_delimited.0) (reader_of (sent_delimited ++ (9 ∷ []))) (omega arith)
      fresh_writer-IsReady refl (wrote_delimited.1) (omega arith, tt)
      (sym (ap (λ t. t ++ (9 ∷ [])) (wrote_delimited.3)))
