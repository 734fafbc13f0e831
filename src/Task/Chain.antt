-- ===== src/Task/Chain.antt =====
-- A coroutine that runs and the coroutines that await one another up to the first: where they stand in
-- memory, and that each transfer of control leaves them so.
use native.Mathlib.Decide.{ℕ_discrete}
use uvio.Prelude.{
  ℕ, suc, ◌≤◌, ◌<◌, ◌≡◌, ◌≢◌, ◌⊎◌, inl, inr, refl, sym, ap, ◌∙◌, Option, none, some, List, [], ◌∷◌,
  arith,
}
use uvio.Prelude.Family.{update, update_same, update_other}
use uvio.Task.{Body, Point, at, awaits, Frame, Memory, store}

-- The frames that await, from the one that the leaf's frame calls back to the first.
abbrev pub Callers : Type 0 → Type 0
Callers V = List (ℕ × (V → Body V))

module _ {V : Type 0} where
  abbrev pub caller_of : Callers V → Option ℕ
  caller_of [] = none
  caller_of ((p, k) ∷ ks) = some p

  abbrev pub frame : Point V → Callers V → Frame V
  frame point ks = record { point = point; caller = caller_of ks; value = none }

  -- Each caller lies below the frame that it awaits, since that was made later.
  abbrev pub Chain : (ℕ → Option (Frame V)) → ℕ → Callers V → Type 0
  Chain frames a [] = Unit {0}
  Chain frames a ((p, k) ∷ ks) =
      (p < a) × (frames p ≡ some (frame (awaits a k) ks)) × Chain frames p ks

  abbrev pub On : ℕ → Callers V → ℕ → Type 0
  On a [] j = a ≡ j
  On a ((p, k) ∷ ks) j = (a ≡ j) ⊎ On p ks j

  -- The frame at `a` stands at a point with these callers, and all else in memory is as in `base`,
  -- which has nothing where they are.
  pub record Stands (base : ℕ → Option (Frame V)) (m : Memory V) (a : ℕ) (point : Point V)
      (ks : Callers V) : Type 0 where
    pub below : a < m.next
    pub leaf : m.frames a ≡ some (frame point ks)
    pub chain : Chain m.frames a ks
    pub around : (j : ℕ) → ¬ On a ks j → m.frames j ≡ base j
    pub free : (j : ℕ) → On a ks j → base j ≡ none
    pub fresh : (j : ℕ) → m.next ≤ j → m.frames j ≡ none

  On-leaf : (a : ℕ) (ks : Callers V) → On a ks a
  On-leaf a [] = refl
  On-leaf a ((p, k) ∷ ks) = inl refl

  On-below :
      (frames : ℕ → Option (Frame V)) (a : ℕ) (ks : Callers V) (j : ℕ)
      → Chain frames a ks
      → On a ks j
      → j ≤ a
  On-below frames a [] j c e = omega (arith, e)
  On-below frames a ((p, k) ∷ ks) j (lt, _, c) (inl e) = omega (arith, e)
  On-below frames a ((p, k) ∷ ks) j (lt, _, c) (inr on) =
      omega (arith, lt, On-below frames p ks j c on)

  -- A frame from `a` on may change without a change of the callers of `a`.
  Chain-update :
      (frames : ℕ → Option (Frame V)) (a b : ℕ) (f : Option (Frame V)) (ks : Callers V)
      → a ≤ b
      → Chain frames a ks
      → Chain (update frames b f) a ks
  Chain-update frames a b f [] h c = tt
  Chain-update frames a b f ((p, k) ∷ ks) h (lt, e, c) = (
    lt,
    update_other frames b f p (λ e'. absurd (omega (arith, e', lt, h))) ∙ e,
    Chain-update frames p b f ks (omega (arith, lt, h)) c,
  )

  apart : (a j : ℕ) (ks : Callers V) → ¬ On a ks j → a ≢ j
  apart a j [] h e = h e
  apart a j ((p, k) ∷ ks) h e = h (inl e)

  above :
      {base : ℕ → Option (Frame V)} {m : Memory V} {a : ℕ} {point : Point V} {ks : Callers V}
      → Stands base m a point ks
      → (j : ℕ) → m.next ≤ j
      → a ≢ j
  above st j h e = absurd (omega (arith, st.below, h, e))

  -- The frame at `a` goes to another point, and something may be written.
  pub move-Stands :
      {base : ℕ → Option (Frame V)} {m : Memory V} {a : ℕ} {point : Point V} {ks : Callers V}
      (point' : Point V) (out : List V)
      → Stands base m a point ks
      → Stands base (record (store a (frame point' ks) m) { written = out }) a point' ks
  move-Stands {base} {m} {a} {point} {ks} point' out st =
      let f : Option (Frame V) = some (frame point' ks) in
      record {
        below = st.below;
        leaf = update_same m.frames a f;
        chain = Chain-update m.frames a a f ks (omega arith) st.chain;
        around = λ j h. update_other m.frames a f j (apart a j ks h) ∙ st.around j h;
        free = st.free;
        fresh = λ j h. update_other m.frames a f j (above st j h) ∙ st.fresh j h;
      }

  -- A task is made and awaited.
  abbrev pub called : ℕ → (V → Body V) → Callers V → Body V → Memory V → Memory V
  called a k ks body m = record m {
    frames =
        update
          (update (update m.frames m.next (some (frame (at body) []))) a
            (some (frame (awaits m.next k) ks)))
          m.next (some (frame (at body) ((a, k) ∷ ks)));
    next = suc m.next;
  }

  base-free :
      {base : ℕ → Option (Frame V)} {m : Memory V} {a : ℕ} {point : Point V} {ks : Callers V}
      → Stands base m a point ks
      → base m.next ≡ none
  base-free {base} {m} {a} {point} {ks} st =
      sym (
        st.around m.next
          (λ on. absurd (omega (arith, On-below m.frames a ks m.next st.chain on, st.below))))
      ∙ st.fresh m.next (omega arith)

  pub called-Stands :
      {base : ℕ → Option (Frame V)} {m : Memory V} {a : ℕ} {ks : Callers V} {point : Point V}
      (body : Body V) (k : V → Body V)
      → Stands base m a point ks
      → Stands base (called a k ks body m) m.next (at body) ((a, k) ∷ ks)
  called-Stands {base} {m} {a} {ks} {point} body k st =
      let c = m.next in
      let f0 : Option (Frame V) = some (frame (at body) []) in
      let f1 : Option (Frame V) = some (frame (awaits c k) ks) in
      let f2 : Option (Frame V) = some (frame (at body) ((a, k) ∷ ks)) in
      let u0 = update m.frames c f0 in
      let u1 = update u0 a f1 in
      let elsewhere : (j : ℕ) → c ≢ j → a ≢ j → update u1 c f2 j ≡ m.frames j = λ j q q'.
        update_other u1 c f2 j q ∙ update_other u0 a f1 j q' ∙ update_other m.frames c f0 j q in
      record {
        below = omega arith;
        leaf = update_same u1 c f2;
        chain = (
          st.below,
          update_other u1 c f2 a (λ e. absurd (omega (arith, e, st.below))) ∙ update_same u0 a f1,
          Chain-update u1 a c f2 ks (omega (arith, st.below)) (
              Chain-update u0 a a f1 ks (omega arith)
                (Chain-update m.frames a c f0 ks (omega (arith, st.below)) st.chain)),
        );
        around = λ j h.
            elsewhere j (λ e. h (inl e)) (apart a j ks (λ on. h (inr on)))
            ∙ st.around j (λ on. h (inr on));
        free = λ j on. elim on [ inl e ↦ ap base (sym e) ∙ base-free st | inr on' ↦ st.free j on' ];
        fresh = λ j h.
            elsewhere j (λ e. absurd (omega (arith, e, h)))
              (λ e. absurd (omega (arith, e, h, st.below)))
            ∙ st.fresh j (omega (arith, h));
      }

  -- The frame at `a` has returned to its caller, which destroys it and goes on.
  abbrev pub returned : ℕ → ℕ → V → (V → Body V) → Callers V → Frame V → Memory V → Memory V
  returned a p v k ks f m = record m {
    frames = update (update (update m.frames a (some f)) a none) p (some (frame (at (k v)) ks));
  }

  pub returned-Stands :
      {base : ℕ → Option (Frame V)} {m : Memory V} {a p : ℕ} {ks : Callers V} {point : Point V}
      (v : V) (k : V → Body V) (f : Frame V)
      → Stands base m a point ((p, k) ∷ ks)
      → Stands base (returned a p v k ks f m) p (at (k v)) ks
  returned-Stands {base} {m} {a} {p} {ks} {point} v k f st =
      let (lt, e, c) = st.chain in
      let f1 : Option (Frame V) = some f in
      let f2 : Option (Frame V) = some (frame (at (k v)) ks) in
      let u0 = update m.frames a f1 in
      let u1 = update u0 a none in
      let elsewhere : (j : ℕ) → a ≢ j → p ≢ j → update u1 p f2 j ≡ m.frames j = λ j q q'.
        update_other u1 p f2 j q' ∙ update_other u0 a none j q ∙ update_other m.frames a f1 j q in
      record {
        below = omega (arith, lt, st.below);
        leaf = update_same u1 p f2;
        chain = Chain-update u1 p p f2 ks (omega arith) (
            Chain-update u0 p a none ks (omega (arith, lt))
              (Chain-update m.frames p a f1 ks (omega (arith, lt)) c));
        around = λ j h. elim (ℕ_discrete a j) [
          | yes q ↦
              update_other u1 p f2 j (apart p j ks h)
              ∙ sym (ap u1 q)
              ∙ update_same u0 a none
              ∙ sym (st.free a (inl refl))
              ∙ ap base q
          | no q ↦
              elsewhere j q (apart p j ks h)
              ∙ st.around j (λ on. elim on [ inl e' ↦ q e' | inr on' ↦ h on' ])
        ];
        free = λ j on. st.free j (inr on);
        fresh = λ j h.
            elsewhere j (above st j h) (λ e'. absurd (omega (arith, e', lt, st.below, h)))
            ∙ st.fresh j h;
      }

  -- The first frame has returned and has destroyed itself: nothing is left of it.
  pub ended-clean :
      {base : ℕ → Option (Frame V)} {m : Memory V} {a : ℕ} {point : Point V} (f : Frame V)
      → Stands base m a point []
      → (j : ℕ) → update (update m.frames a (some f)) a none j ≡ base j
  ended-clean {base} {m} {a} f st j = elim (ℕ_discrete a j) [
    | yes q ↦
        sym (ap (update (update m.frames a (some f)) a none) q)
        ∙ update_same (update m.frames a (some f)) a none
        ∙ sym (st.free a refl)
        ∙ ap base q
    | no q ↦
        update_other (update m.frames a (some f)) a none j q
        ∙ update_other m.frames a (some f) j q
        ∙ st.around j q
  ]
