-- ===== src/Log/Lines.antt =====
-- What a sequence of calls of the logger writes.
use uvio.Prelude.{
  ℕ, ◌/◌, ◌%◌, ◌^◌, ◌≤◌, ◌≡◌, refl, sym, ◌∙◌, true, false, some, List, [], ◌∷◌, ◌++◌, append-nil,
  append_assoc, ltb, if◌then◌else◌, All, Bool-cases, inl, inr,
}
use uvio.Common.Result.{done}
use uvio.Io.Buffer.{c_string}
use uvio.Log.Level.{LogLevel, Style, rank}
use uvio.Log.Timestamp.{Tm, get_timestamp}
use uvio.Log.Stamps.{stamp_text, IsKept, get_timestamp_lem}
use uvio.Log.Console.{
  ConsoleLogger, Entry, set_level, set_style, format_entry, log, LogCall, sets_level, sets_style,
  logs, run_call, run_calls,
}

-- The line of a call, with the time that it was made at.
abbrev pub line_of : (ℕ → Tm) → Style → Entry → List ℕ
line_of localtime style entry =
    format_entry style (stamp_text (localtime (entry.now / 10 ^ 9)) (entry.now % 10 ^ 9 / 10 ^ 6))
      entry

-- The lines of the calls from a level and a style on: those below the level that is set are left out.
abbrev pub lines_of : (ℕ → Tm) → LogLevel → Style → List LogCall → List ℕ
lines_of localtime level style [] = []
lines_of localtime level style (sets_level level' ∷ calls) = lines_of localtime level' style calls
lines_of localtime level style (sets_style style' ∷ calls) = lines_of localtime level style' calls
lines_of localtime level style (logs entry ∷ calls) =
    let rest = lines_of localtime level style calls in
    if ltb (rank entry.level) (rank level) then rest else line_of localtime style entry ++ rest

-- A call that is made one second after the epoch or later.
abbrev pub IsLate : LogCall → Type 0
IsLate (sets_level level) = Unit {0}
IsLate (sets_style style) = Unit {0}
IsLate (logs entry) = 10 ^ 9 ≤ entry.now

module _ (localtime : ℕ → Tm) where
  log_below :
      (entry : Entry) (logger : ConsoleLogger)
      → ltb (rank entry.level) (rank logger.level) ≡ true
      → log localtime entry logger ≡ done logger
  unfolding log
  log_below entry logger low = rw low refl

  log_above :
      (entry : Entry) (logger : ConsoleLogger) (stamp : List ℕ)
      → ltb (rank entry.level) (rank logger.level) ≡ false
      → c_string (get_timestamp localtime entry.now logger.clock).buf ≡ some stamp
      → log localtime entry logger
        ≡ done (record logger {
          clock = get_timestamp localtime entry.now logger.clock;
          clog = logger.clog ++ format_entry logger.style stamp entry;
        })
  unfolding log
  log_above entry logger stamp high e = rw (high, e) refl

  -- From a logger whose clock no call has used yet, or a call has left, and with calls that are made
  -- one second after the epoch or later: the calls end, and what they have written, behind what was
  -- written before, is a line for each call whose level is not below the one set at that time, in
  -- the order of the calls, with the style set then and the time of the call.
  pub run_calls_lem :
      (calls : List LogCall) (logger : ConsoleLogger)
      → All IsLate calls
      → IsKept localtime logger.clock
      → (logger' : ConsoleLogger) × (run_calls localtime calls logger ≡ done logger')
        × (logger'.clog ≡ logger.clog ++ lines_of localtime logger.level logger.style calls)
  unfolding run_calls run_call set_level set_style
  run_calls_lem [] logger late k = (logger, refl, sym (append-nil logger.clog))
  run_calls_lem (sets_level level ∷ calls) logger (_, late) k =
      run_calls_lem calls (record logger { level = level }) late k
  run_calls_lem (sets_style style ∷ calls) logger (_, late) k =
      run_calls_lem calls (record logger { style = style }) late k
  run_calls_lem (logs entry ∷ calls) logger (now, late) k =
      elim (Bool-cases (ltb (rank entry.level) (rank logger.level))) [
        | inl low ↦
            let (logger', run, out) = run_calls_lem calls logger late k in
            (logger', rw (log_below entry logger low) run, rw low out)
        | inr high ↦
            let (e, k') = get_timestamp_lem localtime entry.now logger.clock now k in
            let line = line_of localtime logger.style entry in
            let next : ConsoleLogger = record logger {
              clock = get_timestamp localtime entry.now logger.clock;
              clog = logger.clog ++ line;
            } in
            let (logger', run, out) = run_calls_lem calls next late k' in
            (
              logger',
              rw
                  (log_above entry logger
                    (stamp_text (localtime (entry.now / 10 ^ 9)) (entry.now % 10 ^ 9 / 10 ^ 6)) high
                    e)
                  run,
              rw high (
                  out
                  ∙ append_assoc logger.clog line
                      (lines_of localtime logger.level logger.style calls)),
            )
      ]
