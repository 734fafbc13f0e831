-- ===== src/Tests/Io.antt =====
-- Buffers, readers and writers.
use uvio.Prelude.{ℕ, ◌≡◌, ◌≢◌, refl, List, [], ◌∷◌, arith}
use uvio.Common.Result.{done}
use uvio.Io.Buffer.{StreamBuffer, make, w_increase, fill, write_to, reset_data, r_increase}
use uvio.Io.Buffer.Valid.{IsValid}
use uvio.Io.Buffer.Fifo.{Op, get, put, compact, Trace, run, Balanced, run_fifo}
use uvio.Io.Buffer.{r_slice}
use uvio.Io.BufReader.Text.{IsText, read_until-IsText}
use uvio.Io.Buffer.{find, starts_with}
use uvio.Prelude.{inr}
use uvio.Common.Result.{ok, unexpected, fault, ◌>>=◌}
use uvio.Io.BufReader.{BufReader, make_reader, read, read_exact, read_until}
use uvio.Io.BufReader.Loss.{read_loses}
use uvio.Tests.Streams.{eof}
use uvio.Io.BufReader.Exact.{Served, read_exact_lem}
use uvio.Io.BufWriter.{BufWriter, write, write_all}
use uvio.Io.BufWriter.Order.{IsReady, Writes, Flushes, write_lem, write_all_lem, write_overcounts}
use uvio.Net.TcpStream.Exact.{Filled, Short, socket_read_exact_lem, socket_read_exact-Short}
use uvio.Tests.Streams.{trickle, log}

abbrev small : StreamBuffer
small = record { buf = 7 ∷ 8 ∷ 9 ∷ []; r_pos = 1; w_pos = 2 }

small-IsValid : IsValid small
small-IsValid = omega arith

abbrev script : List Op
script = put (1 ∷ 2 ∷ []) ∷ compact ∷ put (3 ∷ []) ∷ get 2 ∷ []

script_runs :
    run script small
    ≡ done (record {
      accepted = 1 ∷ 3 ∷ [];
      delivered = 8 ∷ 1 ∷ [];
      after = record { buf = 8 ∷ 1 ∷ 3 ∷ []; r_pos = 2; w_pos = 3 };
    })
unfolding run
script_runs = refl

run_fifo_example : (t : Trace) × (run script small ≡ done t) × IsValid t.after × Balanced small t
run_fifo_example = run_fifo script small small-IsValid

abbrev half_read : BufReader trickle
half_read = record { io = 4 ∷ 5 ∷ 6 ∷ []; r_stream = small }

read_exact_lem_example :
    Served trickle (read_exact trickle 3 (0 ∷ 0 ∷ 0 ∷ []) half_read) (8 ∷ 4 ∷ 5 ∷ []) (6 ∷ []) 3
read_exact_lem_example =
    read_exact_lem trickle 3 (0 ∷ 0 ∷ 0 ∷ []) (8 ∷ 4 ∷ 5 ∷ []) (6 ∷ []) half_read small-IsValid
      (omega arith) refl tt refl

-- A reader with one byte in its buffer, on a stream that has ended.
abbrev ended : BufReader trickle
ended = record { io = []; r_stream = small }

read_loses_example :
    (dst : List ℕ) × (r' : BufReader trickle) × (read trickle 0 (0 ∷ 0 ∷ 0 ∷ 0 ∷ []) ended
      ≡ done (unexpected eof, dst, r'))
    × (r_slice r'.r_stream ≡ [])
    × (r'.io ≡ [])
read_loses_example =
    read_loses trickle 0 (0 ∷ 0 ∷ 0 ∷ 0 ∷ []) ended small-IsValid (omega arith) refl

socket_read_exact_lem_example : Filled trickle 2 (0 ∷ 0 ∷ []) (4 ∷ 5 ∷ []) (6 ∷ []) (4 ∷ 5 ∷ 6 ∷ [])
socket_read_exact_lem_example =
    socket_read_exact_lem trickle 2 (0 ∷ 0 ∷ []) (4 ∷ 5 ∷ []) (6 ∷ []) (4 ∷ 5 ∷ 6 ∷ []) refl
      (omega arith) tt refl

socket_read_exact-Short_example : Short trickle 2 (0 ∷ 0 ∷ []) (4 ∷ [])
socket_read_exact-Short_example =
    socket_read_exact-Short trickle 2 (0 ∷ 0 ∷ []) (4 ∷ []) (omega arith) (omega arith) tt

abbrev half_written : BufWriter log
half_written = record { io = 1 ∷ []; w_stream = small }

half_written-IsReady : IsReady log half_written
half_written-IsReady = record { valid = small-IsValid; is_open = tt }

write_lem_example : Writes log (write log (5 ∷ 6 ∷ []) half_written) 3 (1 ∷ 8 ∷ 5 ∷ 6 ∷ [])
write_lem_example = write_lem log (5 ∷ 6 ∷ []) half_written (omega arith) half_written-IsReady

write_all_lem_example : Flushes log (write_all log 2 (5 ∷ 6 ∷ []) half_written) (1 ∷ 8 ∷ 5 ∷ 6 ∷ [])
write_all_lem_example =
    write_all_lem log 0 (5 ∷ 6 ∷ []) half_written (omega arith) half_written-IsReady

-- What the write of two bytes past a buffered one leaves.
abbrev overwritten : BufWriter log
overwritten = record {
  io = 1 ∷ 8 ∷ 5 ∷ 6 ∷ [];
  w_stream = record { buf = 7 ∷ 8 ∷ 9 ∷ []; r_pos = 0; w_pos = 0 };
}

write_overcounts_example : ◌≢◌ {A = ℕ} 3 2
unfolding write reset_data r_increase
write_overcounts_example =
    write_overcounts log (5 ∷ 6 ∷ []) half_written overwritten 3 half_written-IsReady (omega arith)
      (omega arith) refl

-- Four bytes are read, which leaves the buffer empty, and a line is asked for: the bytes that were read
-- are still in the vector, the search finds a line end in them, and the assertion on `r_pos_` fails.
stale_line :
    (read_exact trickle 4
        (0 ∷ 0 ∷ 0 ∷ 0 ∷ [])
        (make_reader trickle (0x61 ∷ 0x62 ∷ 0x0D ∷ 0x0A ∷ []) 8)
      >>= λ (ret, dst, r). read_until trickle 5 [] (0x0D ∷ 0x0A ∷ []) r)
    ≡ fault
unfolding read_exact read_until make_reader make w_increase fill write_to
stale_line = refl

-- "ab", a line end and a byte behind it, all in the buffer.
abbrev lined : BufReader trickle
lined = record {
  io = [];
  r_stream = record { buf = 0x61 ∷ 0x62 ∷ 0x0D ∷ 0x0A ∷ 0x63 ∷ 0 ∷ []; r_pos = 0; w_pos = 5 };
}

read_until-IsText_example :
    (size : ℕ) × (r' : BufReader trickle) × (read_until trickle 1 [] (0x0D ∷ 0x0A ∷ []) lined
      ≡ done (ok size, 0x61 ∷ 0x62 ∷ 0x0D ∷ 0x0A ∷ [], r'))
    × IsText trickle r'
    × (r_slice r'.r_stream ≡ 0x63 ∷ [])
unfolding find starts_with
read_until-IsText_example =
    read_until-IsText trickle [] (0x0D ∷ 0x0A ∷ []) 2 lined
      (record {
        valid = record { ordered = omega arith; within = omega arith };
        readable = inr (record {
          behind = [];
          nul = refl;
          no_nul = (refl, (refl, (refl, (refl, (refl, tt)))));
        });
      })
      (omega arith) refl
