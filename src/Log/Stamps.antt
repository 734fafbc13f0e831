-- ===== src/Log/Stamps.antt =====
-- The text that `get_timestamp` leaves is that of its time, though it keeps most of the text of the
-- last call.
use uvio.Prelude.{
  ℕ, ◌+◌, ◌/◌, ◌%◌, ◌^◌, ◌≤◌, ◌≡◌, ◌⊎◌, inl, inr, refl, ap, ◌∙◌, true, false, List, [], ◌∷◌, ◌++◌,
  replicate, ◌==◌, arith, Bool-cases, some,
}
use uvio.Io.Buffer.{c_string}
use uvio.Io.Buffer.Text.{c_string-text}
use uvio.Log.Timestamp.{Tm, Clock, fresh_clock, decimal, to_int, put_second, get_timestamp}

-- "YYYY-MM-DD HH:MM:SS.mmm".
abbrev pub stamp_text : Tm → ℕ → List ℕ
stamp_text tm ms =
    let year = tm.tm_year + 1900 in
    let month = tm.tm_mon + 1 in
    decimal (year / 10 / 10 / 10)
    ∷ decimal (year / 10 / 10)
    ∷ decimal (year / 10)
    ∷ decimal year
    ∷ 0x2D
    ∷ decimal (month / 10)
    ∷ decimal month
    ∷ 0x2D
    ∷ decimal (tm.tm_mday / 10)
    ∷ decimal tm.tm_mday
    ∷ 0x20
    ∷ decimal (tm.tm_hour / 10)
    ∷ decimal tm.tm_hour
    ∷ 0x3A
    ∷ decimal (tm.tm_min / 10)
    ∷ decimal tm.tm_min
    ∷ 0x3A
    ∷ decimal (tm.tm_sec / 10)
    ∷ decimal tm.tm_sec
    ∷ 0x2E
    ∷ decimal (ms / 10 / 10)
    ∷ decimal (ms / 10)
    ∷ decimal ms
    ∷ []

-- The buffer with such a text.
abbrev pub stamp_buf : Tm → ℕ → List ℕ
stamp_buf tm ms = stamp_text tm ms ++ replicate {A = ℕ} 10 0

put_milliseconds :
    (tm : Tm) (old ms : ℕ) → (to_int 3 0x2E ms (stamp_buf tm old, 23)).0 ≡ stamp_buf tm ms
unfolding to_int
put_milliseconds tm old ms = refl

put_all :
    (tm' tm : Tm) (old ms : ℕ)
    → (put_second tm (to_int 3 0x2E ms (stamp_buf tm' old, 23))).0 ≡ stamp_buf tm ms
unfolding to_int put_second
put_all tm' tm old ms = refl

put_first :
    (tm : Tm) (ms : ℕ)
    → (put_second tm (to_int 3 0x2E ms (replicate {A = ℕ} 33 0, 23))).0 ≡ stamp_buf tm ms
unfolding to_int put_second
put_first tm ms = refl

-- The buffer is as the last call left it, or no call has come yet.
abbrev pub IsKept : (ℕ → Tm) → Clock → Type 0
IsKept localtime clock =
    (clock ≡ fresh_clock) ⊎ ((ms : ℕ) × (clock.buf ≡ stamp_buf (localtime clock.last_second) ms))

stamp_clock : (ℕ → Tm) → ℕ → Clock
stamp_clock localtime now = record {
  buf = stamp_buf (localtime (now / 10 ^ 9)) (now % 10 ^ 9 / 10 ^ 6);
  last_second = now / 10 ^ 9;
}

get_timestamp_cached :
    (localtime : ℕ → Tm) (now ms : ℕ) (clock : Clock)
    → (clock.last_second == now / 10 ^ 9) ≡ true
    → clock.buf ≡ stamp_buf (localtime clock.last_second) ms
    → get_timestamp localtime now clock ≡ stamp_clock localtime now
unfolding get_timestamp stamp_clock
get_timestamp_cached localtime now ms clock hit e =
    let same : clock.last_second ≡ now / 10 ^ 9 = grind arith in
    rw (hit, e, put_milliseconds (localtime clock.last_second) ms (now % 10 ^ 9 / 10 ^ 6))
      (λ i. record {
        buf = stamp_buf (localtime (same i)) (now % 10 ^ 9 / 10 ^ 6);
        last_second = same i;
      })

get_timestamp_new :
    (localtime : ℕ → Tm) (now ms : ℕ) (clock : Clock)
    → (clock.last_second == now / 10 ^ 9) ≡ false
    → clock.buf ≡ stamp_buf (localtime clock.last_second) ms
    → get_timestamp localtime now clock ≡ stamp_clock localtime now
unfolding get_timestamp stamp_clock
get_timestamp_new localtime now ms clock miss e =
    rw
      (
        miss,
        e,
        put_all (localtime clock.last_second) (localtime (now / 10 ^ 9)) ms (now % 10 ^ 9 / 10 ^ 6),
      )
      refl

get_timestamp_first :
    (localtime : ℕ → Tm) (now : ℕ)
    → (0 == now / 10 ^ 9) ≡ false
    → get_timestamp localtime now fresh_clock ≡ stamp_clock localtime now
unfolding get_timestamp stamp_clock fresh_clock
get_timestamp_first localtime now miss =
    rw (miss, put_first (localtime (now / 10 ^ 9)) (now % 10 ^ 9 / 10 ^ 6)) refl

get_timestamp_at :
    (localtime : ℕ → Tm) (now : ℕ) (clock : Clock)
    → 10 ^ 9 ≤ now
    → IsKept localtime clock
    → get_timestamp localtime now clock ≡ stamp_clock localtime now
get_timestamp_at localtime now clock late (inl e) =
    let miss : (0 == now / 10 ^ 9) ≡ false = grind arith in
    rw e (get_timestamp_first localtime now miss)
get_timestamp_at localtime now clock late (inr (ms, e)) =
    elim (Bool-cases (clock.last_second == now / 10 ^ 9)) [
      | inl hit ↦ get_timestamp_cached localtime now ms clock hit e
      | inr miss ↦ get_timestamp_new localtime now ms clock miss e
    ]

decimal_some : (n : ℕ) → (decimal n == 0) ≡ false
decimal_some n = grind arith

c_string-stamp : (tm : Tm) (ms : ℕ) → c_string (stamp_buf tm ms) ≡ some (stamp_text tm ms)
c_string-stamp tm ms =
    let year = tm.tm_year + 1900 in
    let month = tm.tm_mon + 1 in
    let two : (n : ℕ) → (decimal n == 0) ≡ false = decimal_some in
    c_string-text (stamp_text tm ms) (replicate {A = ℕ} 9 0) (
      two _,
      (
        two _,
        (
          two _,
          (
            two _,
            (
              refl,
              (
                two _,
                (
                  two _,
                  (
                    refl,
                    (
                      two _,
                      (
                        two _,
                        (
                          refl,
                          (
                            two _,
                            (
                              two _,
                              (
                                refl,
                                (
                                  two _,
                                  (
                                    two _,
                                    (refl, (two _, (two _, (refl, (two _, (two _, (two _, tt))))))),
                                  ),
                                ),
                              ),
                            ),
                          ),
                        ),
                      ),
                    ),
                  ),
                ),
              ),
            ),
          ),
        ),
      ),
    )

-- From a clock that no call has used yet, or that a call has left, at a time of one second after the
-- epoch or later: the text in the buffer that `get_timestamp` returns is the date, the time of day
-- and the milliseconds of that time, and the clock can be used again.
pub get_timestamp_lem :
    (localtime : ℕ → Tm) (now : ℕ) (clock : Clock)
    → 10 ^ 9 ≤ now
    → IsKept localtime clock
    → (c_string (get_timestamp localtime now clock).buf
        ≡ some (stamp_text (localtime (now / 10 ^ 9)) (now % 10 ^ 9 / 10 ^ 6)))
      × IsKept localtime (get_timestamp localtime now clock)
unfolding stamp_clock
get_timestamp_lem localtime now clock late k =
    let e = get_timestamp_at localtime now clock late k in
    (
      ap (λ t. c_string t.buf) e
          ∙ c_string-stamp (localtime (now / 10 ^ 9)) (now % 10 ^ 9 / 10 ^ 6),
      rw e (inr (now % 10 ^ 9 / 10 ^ 6, refl)),
    )
