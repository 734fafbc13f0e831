-- ===== src/Log/Console.antt =====
-- uvio/log.hpp: `ConsoleLogger`, with the clock that `get_timestamp` keeps and what went to
-- `std::clog`. The message is the result of `std::vformat`, which is the standard library's.
use uvio.Prelude.{ℕ, ◌-◌, none, some, List, [], ◌∷◌, ◌++◌, length, replicate, ltb, if◌then◌else◌}
use uvio.Common.Result.{Run, done, fault, ◌>>=◌}
use uvio.Common.Stoi.{to_string}
use uvio.Io.Buffer.{c_string}
use uvio.Log.Level as Level
use uvio.Log.Level.{LogLevel, Style, rank, to_color, source_color, reset_color}
use uvio.Log.Timestamp.{Tm, Clock, get_timestamp}

pub record ConsoleLogger : Type 0 where
  pub level : LogLevel
  pub style : Style
  pub clock : Clock
  pub clog : List ℕ

-- A call: its level, its place in the source, its message and its time.
pub record Entry : Type 0 where
  pub level : LogLevel
  pub file_name : List ℕ
  pub line : ℕ
  pub message : List ℕ
  pub now : ℕ

unfoldable pub set_level : LogLevel → ConsoleLogger → ConsoleLogger
set_level level logger = record logger { level = level }

unfoldable pub set_style : Style → ConsoleLogger → ConsoleLogger
set_style style logger = record logger { style = style }

-- "{:<5}".
abbrev pub padded : List ℕ → List ℕ
padded text = text ++ replicate {A = ℕ} (5 - length text) 0x20

-- `std::format("{} |{}{:<5}{}| {}{}:{}{} {}\n", ...)` behind the time.
unfoldable pub format_entry : Style → List ℕ → Entry → List ℕ
unfolding to_color Level.to_string to_string
format_entry style stamp entry =
    stamp
    ++ 0x20
      ∷ 0x7C
      ∷ (to_color entry.level style
          ++ (padded (Level.to_string entry.level)
              ++ (reset_color
                  ++ 0x7C
                    ∷ 0x20
                    ∷ (source_color
                        ++ (entry.file_name
                            ++ 0x3A
                              ∷ (to_string entry.line
                                  ++ (reset_color ++ 0x20 ∷ (entry.message ++ 0x0A ∷ []))))))))

unfoldable pub log : (ℕ → Tm) → Entry → ConsoleLogger → Run ConsoleLogger
unfolding rank get_timestamp c_string format_entry
log localtime entry logger =
    let clock = get_timestamp localtime entry.now logger.clock in
    let write : Run ConsoleLogger = elim (c_string clock.buf) [
      | none ↦ fault
      | some stamp ↦ done (record logger {
        clock = clock;
        clog = logger.clog ++ format_entry logger.style stamp entry;
      })
    ] in
    if ltb (rank entry.level) (rank logger.level) then done logger else write

-- The calls that a program makes of the logger.
pub data LogCall : Type 0 where
  sets_level : LogLevel → LogCall
  sets_style : Style → LogCall
  logs : Entry → LogCall

unfoldable pub run_call : (ℕ → Tm) → LogCall → ConsoleLogger → Run ConsoleLogger
unfolding set_level set_style log
run_call localtime (sets_level level) logger = done (set_level level logger)
run_call localtime (sets_style style) logger = done (set_style style logger)
run_call localtime (logs entry) logger = log localtime entry logger

unfoldable pub run_calls : (ℕ → Tm) → List LogCall → ConsoleLogger → Run ConsoleLogger
unfolding run_call
run_calls localtime [] logger = done logger
run_calls localtime (call ∷ calls) logger = do
  logger ← run_call localtime call logger
  run_calls localtime calls logger
