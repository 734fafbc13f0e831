-- ===== src/Io/BufReader/Text.antt =====
-- A reader that has all of a text in its buffer, with a NUL behind it: `read_exact` and `read_until`
-- take the text apart and leave such a reader. On a buffer that earlier reads have left in another
-- state, `find_flag_and_return_slice` may look past the readable bytes.
use uvio.Prelude.{
  ℕ, ◌+◌, ◌≤◌, ◌<◌, ◌≡◌, ◌⊎◌, inl, inr, refl, sym, ap, ◌∙◌, true, false, Bool-cases, some, List, [],
  ◌++◌, append-nil, length, take, drop, min, slice, ltb, leb, ◌==◌, arith, nil_of_length,
  length-slice, length-append, length-take, take-append-drop, append_cancel,
}
use uvio.Common.Result.{ok, done}
use uvio.Io.Buffer.{
  StreamBuffer, capacity, r_slice, r_remaining, reset_pos, r_increase, write_to, find,
  find_flag_and_return_slice,
}
use uvio.Io.Buffer.Valid.{
  IsValid, length-r_slice, advance, rewound, left, rewound_lem, r_increase_lem,
}
use uvio.Io.Buffer.Text.{Ended, NoNul-suffix, find-fits, find_flag_lem}
use uvio.Io.Source.{Source}
use uvio.Io.BufReader.{BufReader, read_exact, read_until}
use uvio.Io.BufReader.Exact.{write_to_full}

-- Nothing is readable, or a text with a NUL behind it is.
abbrev pub Readable : StreamBuffer → Type 0
Readable b = (r_slice b ≡ []) ⊎ Ended b

-- Dropping bytes from the front leaves a text.
advance-Ended :
    (n : ℕ) (b : StreamBuffer) → IsValid b → n ≤ r_remaining b → Ended b → Ended (advance n b)
advance-Ended n b v h text =
    let cut = (r_increase_lem n v h).2 in
    record {
      behind = text.behind;
      nul = text.nul;
      no_nul =
          NoNul-suffix (slice b.r_pos (b.r_pos + n) b.buf) (r_slice (advance n b))
            (rw (sym cut) text.no_nul);
    }

rewound-Readable : (b : StreamBuffer) → Ended b → Readable (rewound b)
unfolding reset_pos
rewound-Readable b text = elim (Bool-cases (b.r_pos == b.w_pos)) [
  | inl same ↦ rw same (inl refl)
  | inr differ ↦ rw differ (inr text)
]

left-Readable : (n : ℕ) (b : StreamBuffer) → IsValid b → Readable b → Readable (left n b)
left-Readable n b v (inr text) =
    rewound-Readable (advance (min (r_remaining b) n) b)
      (advance-Ended (min (r_remaining b) n) b v (omega arith) text)
left-Readable n b v (inl none_left) =
    let inc = r_increase_lem (min (r_remaining b) n) v (omega arith) in
    let rest = r_slice (advance (min (r_remaining b) n) b) in
    let spent : length rest ≡ 0 =
      omega (arith, length-r_slice inc.1, length-r_slice v, ap length none_left) in
    inl ((rewound_lem inc.1).1 ∙ nil_of_length rest spent)

module _ (S : Source) where
  pub record IsText (r : BufReader S) : Type 0 where
    pub valid : IsValid r.r_stream
    pub readable : Readable r.r_stream

  read_exact_served :
      (buf xs : List ℕ) (r : BufReader S)
      → length buf ≤ r_remaining r.r_stream
      → length buf ≤ capacity r.r_stream
      → write_to buf r.r_stream ≡ done (length buf, xs, left (length buf) r.r_stream)
      → read_exact S (length buf) buf r
        ≡ done (ok tt, xs, record { io = r.io; r_stream = left (length buf) r.r_stream })
  unfolding read_exact
  read_exact_served buf xs r enough fits wrote =
      let small : ltb (capacity r.r_stream) (length buf) ≡ false = grind arith in
      let all_there : leb (length buf) (r_remaining r.r_stream) ≡ true = grind arith in
      rw small (rw all_there (rw wrote refl))

  pub read_exact-IsText :
      (buf xs more : List ℕ) (r : BufReader S)
      → IsText r
      → length xs ≡ length buf
      → r_slice r.r_stream ≡ xs ++ more
      → (r' : BufReader S) × (read_exact S (length buf) buf r ≡ done (ok tt, xs, r'))
        × IsText r'
        × (r_slice r'.r_stream ≡ more)
  read_exact-IsText buf xs more r text l e =
      let size = length-r_slice text.valid in
      let enough : length buf ≤ r_remaining r.r_stream =
        omega (arith, ap length e, length-append xs more, size) in
      let fits : length buf ≤ capacity r.r_stream = omega (arith, text.valid.within) in
      let (wrote, v', rest, _) =
        write_to_full buf xs more text.valid enough l [] (append-nil (r_slice r.r_stream) ∙ e) in
      (
        record { io = r.io; r_stream = left (length buf) r.r_stream },
        read_exact_served buf xs r enough fits wrote,
        record {
          valid = v';
          readable = left-Readable (length buf) r.r_stream text.valid text.readable;
        },
        sym (append-nil (r_slice (left (length buf) r.r_stream))) ∙ rest,
      )

  read_until_found :
      (buf flag found : List ℕ) (r : BufReader S) (b' : StreamBuffer)
      → find_flag_and_return_slice flag r.r_stream ≡ done found
      → (length found == 0) ≡ false
      → r_increase (length found) r.r_stream ≡ done b'
      → read_until S 1 buf flag r
        ≡ done (ok (length (buf ++ found)), buf ++ found, record r { r_stream = b' })
  unfolding read_until
  read_until_found buf flag found r b' e some_found moved = rw e (rw some_found (rw moved refl))

  -- From a valid buffer whose readable bytes, if there are any, hold no NUL and are followed by one:
  -- if a non-empty flag is found in them, `read_until` appends to the string what stands before the
  -- flag and the flag, in one round and without a read of the stream or a failed assertion, leaves
  -- such a buffer, and what follows the flag is what can be read of it.
  pub read_until-IsText :
      (buf flag : List ℕ) (n : ℕ) (r : BufReader S)
      → IsText r
      → 0 < length flag
      → find flag (r_slice r.r_stream) ≡ some n
      → (size : ℕ) × (r' : BufReader S) × (read_until S 1 buf flag r
          ≡ done (ok size, buf ++ take (n + length flag) (r_slice r.r_stream), r'))
        × IsText r'
        × (r_slice r'.r_stream ≡ drop (n + length flag) (r_slice r.r_stream))
  read_until-IsText buf flag n r text some_flag e = elim text.readable [
    | inl none_left ↦
        let fits = find-fits flag (r_slice r.r_stream) n e in
        absurd (omega (arith, fits, ap length none_left))
    | inr ended ↦
        let b = r.r_stream in
        let k = n + length flag in
        let fits : k ≤ length (r_slice b) = find-fits flag (r_slice b) n e in
        let found = take k (r_slice b) in
        let size : length found ≡ k = omega (arith, length-take k (r_slice b)) in
        let within : k ≤ r_remaining b = omega (arith, length-r_slice text.valid) in
        let some_found : (length found == 0) ≡ false = grind (arith, size) in
        let (moved, v', cut) = r_increase_lem k text.valid within in
        let parts =
          append_cancel found (slice b.r_pos (b.r_pos + k) b.buf) (drop k (r_slice b))
            (r_slice (advance k b)) (take-append-drop k (r_slice b) ∙ cut)
            (omega (
              arith,
              size,
              length-slice b.r_pos (b.r_pos + k) b.buf
                  (omega (arith, text.valid.within, text.valid.ordered)),
            )) in
        (
          length (buf ++ found),
          record r { r_stream = advance k b },
          read_until_found buf flag found r (advance k b)
              (find_flag_lem flag n b text.valid ended e) some_found
              (ap (λ m. r_increase m b) size ∙ moved),
          record { valid = v'; readable = inr (advance-Ended k b text.valid within ended) },
          sym parts.1,
        )
  ]
