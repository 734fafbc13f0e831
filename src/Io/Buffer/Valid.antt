-- ===== src/Io/Buffer/Valid.antt =====
-- The representation invariant of `StreamBuffer`, and each operation as one of a queue of bytes.
use uvio.Prelude.{
  ◌==◌, if◌then◌else◌, Bool-cases, ==_iff, inl, inr, sym, ℕ, ◌+◌, ◌-◌, ◌≤◌, ◌≡◌, refl, List, ◌++◌,
  min, arith, length, take, slice, overwrite, length-overwrite, length-slice, length-replicate,
  length-take, slice_self, slice_split, slice-overwrite, take-min,
}
use uvio.Common.Result.{done}
use uvio.Io.Buffer.{
  StreamBuffer, make, r_remaining, r_slice, w_remaining, capacity, reset_pos, reset_data,
  r_increase, w_increase, write_to, fill, read_from,
}

-- 0 <= r_pos_ <= w_pos_ <= size, as the comment at the class draws it.
pub record IsValid (b : StreamBuffer) : Type 0 where
  pub ordered : b.r_pos ≤ b.w_pos
  pub within : b.w_pos ≤ length b.buf

pub make-IsValid : (size : ℕ) → IsValid (make size)
unfolding make
make-IsValid size = omega (arith, length-replicate {A = ℕ} size 0)

pub length-r_slice : {b : StreamBuffer} → IsValid b → length (r_slice b) ≡ r_remaining b
length-r_slice {b} v = length-slice b.r_pos b.w_pos b.buf v.within

pub reset_data_lem :
    {b : StreamBuffer}
    → IsValid b
    → IsValid (reset_data b)
      × (r_slice (reset_data b) ≡ r_slice b)
      × (capacity (reset_data b) ≡ capacity b)
      × (w_remaining (reset_data b) ≡ capacity b - r_remaining b)
unfolding reset_data
reset_data_lem {b} v =
    let l = length-r_slice v in
    let c = length-overwrite 0 (r_slice b) b.buf in
    (
      record { ordered = omega arith; within = omega arith },
      slice-overwrite 0 0 (r_remaining b) (r_slice b) b.buf (omega arith) (omega arith)
          (omega arith),
      c,
      omega arith,
    )

-- `b` with its first `n` readable bytes dropped.
abbrev pub advance : ℕ → StreamBuffer → StreamBuffer
advance n b = record b { r_pos = b.r_pos + n }

-- `r_increase` within the readable bytes passes its assertion and drops them from the front.
pub r_increase_lem :
    (n : ℕ) {b : StreamBuffer}
    → IsValid b
    → n ≤ r_remaining b
    → (r_increase n b ≡ done (advance n b))
      × IsValid (advance n b)
      × (r_slice b ≡ slice b.r_pos (b.r_pos + n) b.buf ++ r_slice (advance n b))
unfolding r_increase
r_increase_lem n {b} v h = (
  ground (arith, v.ordered),
  record { ordered = omega (arith, v.ordered); within = v.within },
  slice_split b.r_pos (b.r_pos + n) b.w_pos b.buf (omega arith) (omega (arith, v.ordered)),
)

-- The buffer as `write_to` leaves it: back at the front of the vector when it is empty.
abbrev pub rewound : StreamBuffer → StreamBuffer
rewound b = if b.r_pos == b.w_pos then reset_pos b else b

pub rewound_lem :
    {b : StreamBuffer}
    → IsValid b
    → IsValid (rewound b) × (r_slice (rewound b) ≡ r_slice b) × (capacity (rewound b) ≡ capacity b)
unfolding reset_pos
rewound_lem {b} v = elim (Bool-cases (b.r_pos == b.w_pos)) [
  | inl same ↦
      let e : b.r_pos ≡ b.w_pos = (==_iff b.r_pos b.w_pos).0 same in
      rw same (
        record { ordered = omega arith; within = omega arith },
        sym (rw e (slice_self b.w_pos b.buf)),
        refl,
      )
  | inr differ ↦ rw differ (v, refl, refl)
]

-- What `write_to` copies to a span of `n` bytes, and the buffer that it leaves.
abbrev pub taken : ℕ → StreamBuffer → List ℕ
taken n b = slice b.r_pos (b.r_pos + min (r_remaining b) n) b.buf

abbrev pub left : ℕ → StreamBuffer → StreamBuffer
left n b = rewound (advance (min (r_remaining b) n) b)

length-taken : (n : ℕ) {b : StreamBuffer} → IsValid b → length (taken n b) ≡ min (r_remaining b) n
length-taken n {b} v =
    let j = b.r_pos + min (r_remaining b) n in
    let h : j ≤ length b.buf = omega (arith, v.ordered, v.within) in
    omega (arith, length-slice b.r_pos j b.buf h)

-- `write_to` never fails its assertion. It copies the first bytes, as many as the span takes, and
-- keeps the others in order.
pub write_to_lem :
    (dst : List ℕ) {b : StreamBuffer}
    → IsValid b
    → let n = length dst in
      (write_to dst b ≡ done (min (r_remaining b) n, overwrite 0 (taken n b) dst, left n b))
      × IsValid (left n b)
      × (r_slice b ≡ taken n b ++ r_slice (left n b))
      × (length (taken n b) ≡ min (r_remaining b) n)
      × (capacity (left n b) ≡ capacity b)
unfolding write_to
write_to_lem dst {b} v =
    let n = length dst in
    let inc = r_increase_lem (min (r_remaining b) n) v (omega arith) in
    let back = rewound_lem inc.1 in
    (rw (inc.0), back.0, rw (back.1) (inc.2), length-taken n v, back.2)

-- Writing `xs` into the free space and moving `w_pos` past it appends `xs` to the readable bytes.
abbrev pub appended : List ℕ → StreamBuffer → StreamBuffer
appended xs b = record b { buf = overwrite b.w_pos xs b.buf; w_pos = b.w_pos + length xs }

pub appended_lem :
    (xs : List ℕ) {b : StreamBuffer}
    → IsValid b
    → length xs ≤ w_remaining b
    → (w_increase (length xs) (fill xs b) ≡ done (appended xs b))
      × IsValid (appended xs b)
      × (r_slice (appended xs b) ≡ r_slice b ++ xs)
      × (capacity (appended xs b) ≡ capacity b)
unfolding w_increase fill
appended_lem xs {b} v h =
    let l = length-overwrite b.w_pos xs b.buf in
    (
      ground (arith, v.ordered),
      record { ordered = omega (arith, v.ordered); within = omega (arith, v.within) },
      slice-overwrite b.r_pos b.w_pos (b.w_pos + length xs) xs b.buf v.ordered refl
          (omega (arith, v.within)),
      l,
    )

-- `read_from` appends as much of `src` as there is room for, and never fails its assertion.
pub read_from_lem :
    (src : List ℕ) {b : StreamBuffer}
    → IsValid b
    → let xs = take (w_remaining b) src in
      (read_from src b ≡ done (length xs, appended xs b))
      × IsValid (appended xs b)
      × (r_slice (appended xs b) ≡ r_slice b ++ xs)
      × (capacity (appended xs b) ≡ capacity b)
unfolding read_from
read_from_lem src {b} v =
    let xs = take (w_remaining b) src in
    let l : length xs ≡ min (w_remaining b) (length src) = length-take (w_remaining b) src in
    let same : take (min (w_remaining b) (length src)) src ≡ xs = take-min (w_remaining b) src in
    let app = appended_lem xs v (omega arith) in (rw (same, ← l, app.0), app.1, app.2, app.3)
