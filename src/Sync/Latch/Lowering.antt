-- ===== src/Sync/Latch/Lowering.antt =====
-- The turns of awaiters, and of calls that lower the counter.
use native.Mathlib.Decide.{ℕ_discrete}
use mathlib.Core.List.{Memᴰ}
use mathlib.Core.List.Memᴰ.{cases_cons, not-nil}
use uvio.Prelude.{
  ℕ, Bool, Bool-cases, ◌^◌, ◌≤◌, ◌<◌, ◌≡◌, ◌≢◌, inl, inr, refl, sym, ap, ◌∙◌, true, false, List,
  ◌∷◌, ◌==◌, if◌then◌else◌, arith,
}
use uvio.Prelude.Family.{update, update_same, update_other}
use uvio.Sync.Latch.{
  Latch, try_wait, fetch_sub, push, Phase, outside, asked, pushed, suspended, resumed, idle,
  loading, walking, System, init, ask, put, settle, lower, load, count_down,
}
use uvio.Sync.Latch.Turns.{
  Early, absent, asleep, Counting, Notifying, AtMostOnce, counting, notifying,
}

pub open_zero : (l : Latch) → try_wait l ≡ true → l.expected ≡ 0
unfolding try_wait
open_zero l e = grind arith

pub shut_more : (l : Latch) → try_wait l ≡ false → l.expected ≢ 0
unfolding try_wait
shut_more l e = grind arith

pub init-AtMostOnce : (count : ℕ) → 0 < count → count < 2 ^ 64 → AtMostOnce (init count)
unfolding init
init-AtMostOnce count h h' = counting (record {
  more = grind arith;
  fits = h';
  quiet = λ i. refl;
  distinct = tt;
  early = λ w. absent refl not-nil;
  never = λ w. refl;
})

-- `await_ready` finds the latch open.
pub ask_past :
    (w : ℕ) (s : System)
    → try_wait s.latch ≡ true
    → ask w s ≡ record s { phase = update s.phase w resumed }
unfolding ask
ask_past w s e = rw e refl

pub past-Notifying :
    (w : ℕ) (s : System)
    → s.phase w ≡ outside
    → Notifying s
    → Notifying (record s { phase = update s.phase w resumed })
past-Notifying w s before n = record {
  zero_now = n.zero_now;
  caller = n.caller;
  to_wake = n.to_wake;
  others = n.others;
  at = n.at;
  distinct = n.distinct;
  waiting = λ v m e. elim (ℕ_discrete w v) [
    | yes p ↦ n.waiting v m (sym (ap s.phase p) ∙ before)
    | no q ↦ n.waiting v m (sym (update_other s.phase w resumed v q) ∙ e)
  ];
  not_yet = n.not_yet;
  once = n.once;
}

-- The suspension, in one piece.
abbrev pub thrice : (ℕ → Phase) → ℕ → ℕ → Phase
thrice f w = update (update (update f w asked) w pushed) w suspended

pub suspend_at :
    (w : ℕ) (s : System)
    → try_wait s.latch ≡ false
    → settle w (put w (ask w s))
      ≡ record s { latch = record s.latch { head = w ∷ s.latch.head }; phase = thrice s.phase w }
unfolding ask put settle push try_wait
suspend_at w s e = rw e refl

thrice_other : (f : ℕ → Phase) (w v : ℕ) → w ≢ v → thrice f w v ≡ f v
thrice_other f w v q =
    update_other (update (update f w asked) w pushed) w suspended v q
    ∙ update_other (update f w asked) w pushed v q
    ∙ update_other f w asked v q

outside_asleep : (p : Phase) → p ≡ outside → p ≢ suspended
outside_asleep p e e' = cc

not_listed : (w : ℕ) (s : System) → s.phase w ≡ outside → Early s w → ¬ Memᴰ w s.latch.head
not_listed w s before (absent e away) = away
not_listed w s before (asleep e) = absurd (outside_asleep (s.phase w) before e)

not_consed : (w v : ℕ) (ws : List ℕ) → w ≢ v → ¬ Memᴰ v ws → ¬ Memᴰ v (w ∷ ws)
not_consed w v ws q away m = elim (cases_cons m) [ inl e ↦ q (sym e) | inr m' ↦ away m' ]

pub suspend-Counting :
    (w : ℕ) (s : System)
    → s.phase w ≡ outside
    → Counting s
    → Counting
        (record s { latch = record s.latch { head = w ∷ s.latch.head }; phase = thrice s.phase w })
suspend-Counting w s before c = record {
  more = c.more;
  fits = c.fits;
  quiet = c.quiet;
  distinct = (not_listed w s before (c.early w), c.distinct);
  early = λ v. elim (ℕ_discrete w v) [
    | yes p ↦ asleep (
        sym (ap (thrice s.phase w) p)
        ∙ update_same (update (update s.phase w asked) w pushed) w suspended)
    | no q ↦ elim (c.early v) [
      | absent e away ↦ absent (thrice_other s.phase w v q ∙ e) (not_consed w v s.latch.head q away)
      | asleep e ↦ asleep (thrice_other s.phase w v q ∙ e)
    ]
  ];
  never = c.never;
}

-- A count that stays above zero, and one that comes to zero.
pub lower-Counting :
    (i amount : ℕ) (s : System)
    → 0 < amount
    → amount < s.latch.expected
    → Counting s
    → Counting (lower i amount s)
unfolding lower fetch_sub
lower-Counting i amount s some_amount less c =
    let miss : (s.latch.expected == amount) ≡ false = grind arith in
    rw miss (record {
      more = λ e. absurd (omega (arith, e, c.fits));
      fits = omega arith;
      quiet = λ j. elim (ℕ_discrete i j) [
        | yes p ↦ sym (ap (update s.call i idle) p) ∙ update_same s.call i idle
        | no q ↦ update_other s.call i idle j q ∙ c.quiet j
      ];
      distinct = c.distinct;
      early = λ w. elim (c.early w) [ absent e away ↦ absent e away | asleep e ↦ asleep e ];
      never = c.never;
    })

listed_inside : (w : ℕ) (s : System) → Early s w → Memᴰ w s.latch.head → s.phase w ≢ outside
listed_inside w s (absent e away) m before = away m
listed_inside w s (asleep e) m before = outside_asleep (s.phase w) before e

pub notify-Notifying :
    (i amount : ℕ) (s : System)
    → 0 < amount
    → amount ≡ s.latch.expected
    → Counting s
    → Notifying (load i (lower i amount s))
unfolding load lower fetch_sub
notify-Notifying i amount s some_amount same c =
    let calls = update s.call i (if s.latch.expected == amount then loading else idle) in
    record {
      zero_now = omega (arith, same, c.fits);
      caller = i;
      to_wake = s.latch.head;
      others = λ j q.
          update_other calls i (walking s.latch.head) j q
          ∙ update_other s.call i (if s.latch.expected == amount then loading else idle) j q
          ∙ c.quiet j;
      at = inl (update_same calls i (walking s.latch.head));
      distinct = c.distinct;
      waiting = λ w m. listed_inside w s (c.early w) m;
      not_yet = λ w m. c.never w;
      once = λ w. omega (arith, c.never w);
    }

count_down_test :
    (i amount : ℕ) (s : System) (last : Bool)
    → (s.latch.expected == amount) ≡ last
    → count_down i amount s ≡ (if last then load i (lower i amount s) else lower i amount s)
unfolding count_down fetch_sub
count_down_test i amount s last e =
    ap (λ t. if t then load i (lower i amount s) else lower i amount s) e

-- `count_down`: the caller that has brought the counter to zero notifies.
pub count_down-AtMostOnce :
    (i amount : ℕ) (s : System)
    → 0 < amount
    → amount ≤ s.latch.expected
    → Counting s
    → AtMostOnce (count_down i amount s)
count_down-AtMostOnce i amount s some_amount most c =
    elim (Bool-cases (s.latch.expected == amount)) [
      | inl last ↦
          let same : amount ≡ s.latch.expected = grind arith in
          rw (count_down_test i amount s true last)
            (notifying (notify-Notifying i amount s some_amount same c))
      | inr more ↦
          let less : amount < s.latch.expected = grind arith in
          rw (count_down_test i amount s false more)
            (counting (lower-Counting i amount s some_amount less c))
    ]
