-- ===== src/Log/Timestamp.antt =====
-- uvio/log.hpp: `to_int` and `get_timestamp`, which keeps the text of the last second. `localtime` is
-- the C library's; a time is its number of nanoseconds since the epoch.
use uvio.Prelude.{
  ℕ, zero, suc, ◌+◌, ◌-◌, ◌/◌, ◌%◌, ◌^◌, List, [], ◌∷◌, replicate, overwrite, ◌==◌, if◌then◌else◌,
}

-- `struct tm`, as far as it is used.
pub record Tm : Type 0 where
  pub tm_sec : ℕ
  pub tm_min : ℕ
  pub tm_hour : ℕ
  pub tm_mday : ℕ
  pub tm_mon : ℕ
  pub tm_year : ℕ

-- `buf` and `last_second`.
pub record Clock : Type 0 where
  pub buf : List ℕ
  pub last_second : ℕ

unfoldable pub fresh_clock : Clock
fresh_clock = record { buf = replicate {A = ℕ} 33 0; last_second = 0 }

abbrev pub decimal : ℕ → ℕ
decimal n = 0x30 + n % 10

-- The loop of `to_int`: the digits, from the last one on, and the position in front of them.
abbrev pub put_digits : ℕ → ℕ → List ℕ → ℕ → List ℕ × ℕ
put_digits zero num p size = (p, size)
put_digits (suc n) num p size =
    put_digits n (num / 10) (overwrite (size - 1) (decimal num ∷ []) p) (size - 1)

unfoldable pub to_int : ℕ → ℕ → ℕ → List ℕ × ℕ → List ℕ × ℕ
to_int n c num (p, size) =
    let (p', size') = put_digits n num p size in
    if n == 4 then (p', size') else (overwrite (size' - 1) (c ∷ []) p', size' - 1)

-- The date, the hours, the minutes and the seconds.
unfoldable pub put_second : Tm → List ℕ × ℕ → List ℕ × ℕ
unfolding to_int
put_second tm at =
    let at = to_int 2 0x3A tm.tm_sec at in
    let at = to_int 2 0x3A tm.tm_min at in
    let at = to_int 2 0x20 tm.tm_hour at in
    let at = to_int 2 0x2D tm.tm_mday at in
    let at = to_int 2 0x2D (tm.tm_mon + 1) at in to_int 4 0x20 (tm.tm_year + 1900) at

-- The clock whose buffer `get_timestamp` returns.
unfoldable pub get_timestamp : (ℕ → Tm) → ℕ → Clock → Clock
unfolding to_int put_second
get_timestamp localtime now clock =
    let seconds = now / 10 ^ 9 in
    let milliseconds = now % 10 ^ 9 / 10 ^ 6 in
    let at = to_int 3 0x2E milliseconds (clock.buf, 23) in
    if clock.last_second == seconds
    then record clock { buf = at.0 }
    else record { buf = (put_second (localtime seconds) at).0; last_second = seconds }
