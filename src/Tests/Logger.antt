-- ===== src/Tests/Logger.antt =====
-- Three calls of a fresh logger: one below its level, and two in the same second.
use uvio.Prelude.{ℕ, ◌/◌, ◌%◌, ◌≡◌, refl, inl, some, List, [], ◌∷◌, arith}
use uvio.Common.Result.{done}
use uvio.Io.Buffer.{c_string}
use uvio.Log.Level.{debug, info, trace, foreground}
use uvio.Log.Timestamp.{Tm, fresh_clock, get_timestamp}
use uvio.Log.Stamps.{IsKept, stamp_text, get_timestamp_lem}
use uvio.Log.Console.{ConsoleLogger, Entry, LogCall, logs, sets_level, run_calls}
use uvio.Log.Lines.{lines_of, run_calls_lem}

-- A local time that counts seconds only.
abbrev localtime : ℕ → Tm
localtime seconds = record {
  tm_sec = seconds % 60;
  tm_min = seconds / 60 % 60;
  tm_hour = seconds / 3600 % 24;
  tm_mday = 1;
  tm_mon = 0;
  tm_year = 70;
}

-- "1970-01-01 00:01:01.250".
stamp_61 :
    c_string (get_timestamp localtime 61250000000 fresh_clock).buf
    ≡ some (
        0x31 ∷ 0x39 ∷ 0x37 ∷ 0x30 ∷ 0x2D ∷ 0x30 ∷ 0x31 ∷ 0x2D ∷ 0x30 ∷ 0x31 ∷ 0x20 ∷ 0x30 ∷ 0x30
        ∷ 0x3A ∷ 0x30 ∷ 0x31 ∷ 0x3A ∷ 0x30 ∷ 0x31 ∷ 0x2E ∷ 0x32 ∷ 0x35 ∷ 0x30 ∷ [])
unfolding c_string get_timestamp fresh_clock
stamp_61 = refl

-- In the first second after the epoch a fresh clock has no date: its buffer begins with a NUL.
no_stamp : c_string (get_timestamp localtime 5000000 fresh_clock).buf ≡ some []
unfolding c_string get_timestamp fresh_clock
no_stamp = refl

get_timestamp_lem_example :
    (c_string (get_timestamp localtime 61250000000 fresh_clock).buf
      ≡ some (stamp_text (localtime 61) 250))
    × IsKept localtime (get_timestamp localtime 61250000000 fresh_clock)
get_timestamp_lem_example =
    get_timestamp_lem localtime 61250000000 fresh_clock (omega arith) (inl refl)

abbrev logger : ConsoleLogger
logger = record { level = debug; style = foreground; clock = fresh_clock; clog = [] }

abbrev first : Entry
first = record {
  level = info;
  file_name = 0x61 ∷ [];
  line = 7;
  message = 0x62 ∷ [];
  now = 61250000000;
}

abbrev second : Entry
second = record first { now = 61300000000 }

abbrev calls : List LogCall
calls = logs (record first { level = trace }) ∷ logs first ∷ sets_level info ∷ logs second ∷ []

run_calls_lem_example :
    (logger' : ConsoleLogger) × (run_calls localtime calls logger ≡ done logger')
    × (logger'.clog ≡ lines_of localtime debug foreground calls)
run_calls_lem_example =
    run_calls_lem localtime calls logger (omega arith, (omega arith, (tt, (omega arith, tt))))
      (inl refl)
