-- ===== src/Log/Level.antt =====
-- uvio/log.hpp: the levels, the styles and the texts that they stand for, byte by byte.
use uvio.Prelude.{ℕ, List, [], ◌∷◌, ◌++◌}

-- `enum class LogLevel` and `enum class Style`.
pub data LogLevel : Type 0 where
  trace debug info warn error fatal : LogLevel

pub data Style : Type 0 where
  foreground background : Style

-- The number of a level, by which `<` compares.
unfoldable pub rank : LogLevel → ℕ
rank trace = 0
rank debug = 1
rank info = 2
rank warn = 3
rank error = 4
rank fatal = 5

unfoldable pub to_string : LogLevel → List ℕ
to_string trace = 0x54 ∷ 0x52 ∷ 0x41 ∷ 0x43 ∷ 0x45 ∷ []
to_string debug = 0x44 ∷ 0x45 ∷ 0x42 ∷ 0x55 ∷ 0x47 ∷ []
to_string info = 0x49 ∷ 0x4E ∷ 0x46 ∷ 0x4F ∷ 0x20 ∷ []
to_string warn = 0x57 ∷ 0x41 ∷ 0x52 ∷ 0x4E ∷ 0x20 ∷ []
to_string error = 0x45 ∷ 0x52 ∷ 0x52 ∷ 0x4F ∷ 0x52 ∷ []
to_string fatal = 0x46 ∷ 0x41 ∷ 0x54 ∷ 0x41 ∷ 0x4C ∷ []

-- "\033[...m".
abbrev pub escape : List ℕ → List ℕ
escape codes = 0x1B ∷ 0x5B ∷ (codes ++ 0x6D ∷ [])

unfoldable pub to_color_fg : LogLevel → List ℕ
to_color_fg trace = escape (0x33 ∷ 0x36 ∷ [])
to_color_fg debug = escape (0x39 ∷ 0x34 ∷ [])
to_color_fg info = escape (0x33 ∷ 0x32 ∷ [])
to_color_fg warn = escape (0x33 ∷ 0x33 ∷ [])
to_color_fg error = escape (0x33 ∷ 0x31 ∷ [])
to_color_fg fatal = escape (0x33 ∷ 0x35 ∷ [])

unfoldable pub to_color_bg : LogLevel → List ℕ
to_color_bg trace = escape (0x39 ∷ 0x37 ∷ 0x3B ∷ 0x34 ∷ 0x36 ∷ [])
to_color_bg debug = escape (0x39 ∷ 0x37 ∷ 0x3B ∷ 0x34 ∷ 0x34 ∷ [])
to_color_bg info = escape (0x39 ∷ 0x37 ∷ 0x3B ∷ 0x34 ∷ 0x32 ∷ [])
to_color_bg warn = escape (0x39 ∷ 0x30 ∷ 0x3B ∷ 0x34 ∷ 0x33 ∷ [])
to_color_bg error = escape (0x39 ∷ 0x37 ∷ 0x3B ∷ 0x34 ∷ 0x31 ∷ [])
to_color_bg fatal = escape (0x39 ∷ 0x37 ∷ 0x3B ∷ 0x34 ∷ 0x35 ∷ [])

unfoldable pub to_color : LogLevel → Style → List ℕ
unfolding to_color_fg to_color_bg
to_color level foreground = to_color_fg level
to_color level background = to_color_bg level

abbrev pub source_color : List ℕ
source_color = escape (0x39 ∷ 0x30 ∷ [])

abbrev pub reset_color : List ℕ
reset_color = escape (0x30 ∷ [])
