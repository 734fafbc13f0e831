-- ===== src/Io/Buffer.antt =====
-- uvio/io/buffer.hpp: `StreamBuffer`, a vector of bytes with a read and a write position.
-- The positions are C++ `int`s; they stay natural numbers, since no operation moves them below 0.
pub mod Valid
pub mod Text
pub mod Fifo
use uvio.Prelude.{
  ℕ, zero, suc, ◌+◌, ◌-◌, Bool, true, false, Option, none, some, List, [], ◌∷◌, min, leb, ◌==◌,
  if◌then◌else◌, length, take, drop, slice, replicate, overwrite,
}
use uvio.Common.Result.{Run, done, fault, hang, ◌>>=◌, ◌>>◌, assert}
use mathlib.Core.Option
use mathlib.Core.Bool.{◌&&◌}

pub record StreamBuffer : Type 0 where
  pub buf : List ℕ
  pub r_pos : ℕ
  pub w_pos : ℕ

-- The constructor: `buf_(size)` is filled with zeros.
unfoldable pub make : ℕ → StreamBuffer
make size = record { buf = replicate size 0; r_pos = 0; w_pos = 0 }

abbrev pub r_remaining : StreamBuffer → ℕ
r_remaining b = b.w_pos - b.r_pos

abbrev pub r_slice : StreamBuffer → List ℕ
r_slice b = slice b.r_pos b.w_pos b.buf

abbrev pub w_remaining : StreamBuffer → ℕ
w_remaining b = length b.buf - b.w_pos

abbrev pub empty : StreamBuffer → Bool
empty b = b.r_pos == b.w_pos

abbrev pub capacity : StreamBuffer → ℕ
capacity b = length b.buf

unfoldable pub reset_pos : StreamBuffer → StreamBuffer
reset_pos b = record b { r_pos = 0; w_pos = 0 }

-- `std::copy` to the front of the vector, then the positions.
unfoldable pub reset_data : StreamBuffer → StreamBuffer
reset_data b = record b { buf = overwrite 0 (r_slice b) b.buf; r_pos = 0; w_pos = r_remaining b }

-- The two increments move the position and then assert.
unfoldable pub r_increase : ℕ → StreamBuffer → Run StreamBuffer
r_increase n b = do
  let b' = record b { r_pos = b.r_pos + n }
  assert (leb b'.r_pos b'.w_pos)
  done b'

unfoldable pub w_increase : ℕ → StreamBuffer → Run StreamBuffer
w_increase n b = do
  let b' = record b { w_pos = b.w_pos + n }
  assert (leb b'.r_pos b'.w_pos)
  done b'

-- The count, the span `dst` as it is left, and the buffer.
unfoldable pub write_to : List ℕ → StreamBuffer → Run (ℕ × List ℕ × StreamBuffer)
unfolding r_increase reset_pos
write_to dst b = do
  let len = min (r_remaining b) (length dst)
  let dst' = overwrite 0 (slice b.r_pos (b.r_pos + len) b.buf) dst
  b' ← r_increase len b
  done (len, dst', if b'.r_pos == b'.w_pos then reset_pos b' else b')

-- A write of `xs` at the front of `w_slice()`.
unfoldable pub fill : List ℕ → StreamBuffer → StreamBuffer
fill xs b = record b { buf = overwrite b.w_pos xs b.buf }

unfoldable pub read_from : List ℕ → StreamBuffer → Run (ℕ × StreamBuffer)
unfolding w_increase fill
read_from src b = do
  let len = min (w_remaining b) (length src)
  b' ← w_increase len (fill (take len src) b)
  done (len, b')

-- What `std::string_view{p}` reads from a pointer: the bytes in front of the first NUL. `none` is
-- a read past the end of the vector.
unfoldable pub c_string : List ℕ → Option (List ℕ)
c_string [] = none
c_string (x ∷ xs) = if x == 0 then some [] else Option.map (λ s. x ∷ s) (c_string xs)

unfoldable pub starts_with : List ℕ → List ℕ → Bool
starts_with [] hay = true
starts_with (n ∷ needle) [] = false
starts_with (n ∷ needle) (x ∷ hay) = n == x && starts_with needle hay

-- `std::string_view::find`; `none` is `npos`.
unfoldable pub find : List ℕ → List ℕ → Option ℕ
unfolding starts_with
find needle [] = if starts_with needle [] then some 0 else none
find needle (x ∷ hay) =
    if starts_with needle (x ∷ hay) then some 0 else Option.map suc (find needle hay)

-- The slice begins at `r_begin()` and ends where the flag that was found ends.
unfoldable pub find_flag_and_return_slice : List ℕ → StreamBuffer → Run (List ℕ)
unfolding c_string find
find_flag_and_return_slice end_str b = elim (c_string (drop b.r_pos b.buf)) [
  | none ↦ fault
  | some view ↦ elim (find end_str view) [
    | none ↦ done []
    | some pos ↦ done (take (pos + length end_str) (drop b.r_pos b.buf))
  ]
]

-- The overload for one character.
unfoldable pub find_char_and_return_slice : ℕ → StreamBuffer → Run (List ℕ)
unfolding c_string find
find_char_and_return_slice end_char b = elim (c_string (drop b.r_pos b.buf)) [
  | none ↦ fault
  | some view ↦ elim (find (end_char ∷ []) view) [
    | none ↦ done []
    | some pos ↦ done (take (pos + 1) (drop b.r_pos b.buf))
  ]
]
