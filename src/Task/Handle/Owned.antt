-- ===== src/Task/Handle/Owned.antt =====
-- Each frame has at most one task that owns it, whatever the program does with its tasks.
use mathlib.Core.Path.{subst}
use uvio.Prelude.{
  ℕ, ◌<◌, ◌≡◌, ◌≢◌, refl, sym, ap, ◌∙◌, true, false, ◌==◌, Option, none, some, inl, inr, arith,
  if◌then◌else◌,
}
use uvio.Prelude.Family.{update, update_same, update_other}
use uvio.Prelude.Slots.{update-some, erased_some, moved_some}
use uvio.Common.Result.{Run, done, fault}
use uvio.Task.{Body, at, Frame, Memory, destroy, new_task}
use uvio.Task.Handle.{
  Handles, call, move_into, assign, take_handle, drop_task, Step, calls, moves, assigns, takes,
  drops, ends, Reach, start, later,
}

done_inj : {A : Type 0} {x y : A} → done x ≡ done y → x ≡ y
done_inj e = cc e

module _ {V : Type 0} where
  -- No two tasks own the same frame, and the frame of a task is alive.
  record Owned (h : Handles) (m : Memory V) : Type 0 where
    alone : (i j a : ℕ) → h i ≡ some a → h j ≡ some a → i ≡ j
    below : (i a : ℕ) → h i ≡ some a → a < m.next
    alive : (i a : ℕ) → h i ≡ some a → m.frames a ≢ none

  -- Tasks that own what distinct tasks did own it as well.
  Owned-from :
      {h h' : Handles} {m : Memory V} (from : ℕ → ℕ)
      → ((x a : ℕ) → h' x ≡ some a → h (from x) ≡ some a)
      → ((x y a b : ℕ) → h' x ≡ some a → h' y ≡ some b → from x ≡ from y → x ≡ y)
      → Owned h m
      → Owned h' m
  Owned-from from src apart own = record {
    alone =
        λ i j a e e'. apart i j a a e e' (own.alone (from i) (from j) a (src i a e) (src j a e'));
    below = λ i a e. own.below (from i) a (src i a e);
    alive = λ i a e. own.alive (from i) a (src i a e);
  }

  Owned-removed : {h : Handles} {m : Memory V} (i : ℕ) → Owned h m → Owned (update h i none) m
  Owned-removed {h} {m} i own =
      Owned-from (λ x. x) (λ x a e. (erased_some h i x a e).1) (λ x y a b e e' q. q) own

  Owned-moved : {h : Handles} {m : Memory V} (i j : ℕ) → Owned h m → Owned (move_into i j h) m
  Owned-moved {h} {m} i j own = record {
    alone = λ x y a e e'.
        let (q, r) = moved_some h i j x a e in
        let (q', r') = moved_some h i j y a e' in
        elim r [
          | inl (p, c) ↦ elim r' [
            | inl (p', c') ↦ sym p ∙ p'
            | inr (n, c') ↦ absurd (q' (own.alone j y a c c'))
          ]
          | inr (n, c) ↦ elim r' [
            | inl (p', c') ↦ absurd (q (own.alone j x a c' c))
            | inr (n', c') ↦ own.alone x y a c c'
          ]
        ];
    below = λ x a e. elim ((moved_some h i j x a e).1) [
      | inl (p, c) ↦ own.below j a c
      | inr (n, c) ↦ own.below x a c
    ];
    alive = λ x a e. elim ((moved_some h i j x a e).1) [
      | inl (p, c) ↦ own.alive j a c
      | inr (n, c) ↦ own.alive x a c
    ];
  }

  Owned-assigned : {h : Handles} {m : Memory V} (i j : ℕ) → Owned h m → Owned (assign i j h) m
  unfolding assign
  Owned-assigned {h} {m} i j own =
      elim (i == j) as (λ b. Owned (if b then h else move_into i j h) m) [
        | true ↦ own
        | false ↦ Owned-moved i j own
      ]

  Owned-destroyed :
      {h : Handles} {m : Memory V} (a : ℕ)
      → ((i : ℕ) → h i ≢ some a)
      → Owned h m
      → Owned h (destroy a m)
  unfolding destroy
  Owned-destroyed {h} {m} a unowned own = record {
    alone = own.alone;
    below = own.below;
    alive = λ i b e e'.
        own.alive i b e
          (sym (update_other m.frames a none b (λ q. unowned i (e ∙ ap some (sym q)))) ∙ e');
  }

  Owned-called :
      {h : Handles} {m : Memory V} (i : ℕ) (body : Body V)
      → Owned h m
      → Owned ((call i body (h, m)).0) ((call i body (h, m)).1)
  unfolding call new_task
  Owned-called {h} {m} i body own =
      let f : Option (Frame V) = some (record { point = at body; caller = none; value = none }) in
      let same : (a : ℕ) → some m.next ≡ some a → m.next ≡ a = λ a c. cc c in
      record {
        alone = λ x y a e e'. elim (update-some h i (some m.next) x a e) [
          | inl (p, c) ↦ elim (update-some h i (some m.next) y a e') [
            | inl (p', c') ↦ sym p ∙ p'
            | inr (n, c') ↦ absurd (omega (arith, own.below y a c', same a c))
          ]
          | inr (n, c) ↦ elim (update-some h i (some m.next) y a e') [
            | inl (p', c') ↦ absurd (omega (arith, own.below x a c, same a c'))
            | inr (n', c') ↦ own.alone x y a c c'
          ]
        ];
        below = λ x a e. elim (update-some h i (some m.next) x a e) [
          | inl (p, c) ↦ omega (arith, same a c)
          | inr (n, c) ↦ omega (arith, own.below x a c)
        ];
        alive = λ x a e. elim (update-some h i (some m.next) x a e) [
          | inl (p, c) ↦ λ e'.
              let gone : update m.frames m.next f m.next ≡ none =
                ap (update m.frames m.next f) (same a c) ∙ e' in
              cc (gone, update_same m.frames m.next f)
          | inr (n, c) ↦ λ e'. own.alive x a c (
              sym
                (update_other m.frames m.next f a (λ q. absurd (omega (arith, q, own.below x a c))))
              ∙ e')
        ];
      }

  -- A task that is taken owns nothing afterwards.
  Owned-taken :
      {h h' : Handles} {m : Memory V} (i a : ℕ)
      → take_handle i h ≡ done (a, h')
      → Owned h m
      → Owned h' m
  unfolding take_handle
  Owned-taken {h} {h'} {m} i a e own =
      let taken : Option ℕ → Run (ℕ × Handles) =
        λ o. elim o [ none ↦ fault | some b ↦ done (b, update h i none) ] in
      let found : (o : Option ℕ) → taken o ≡ done (a, h') → update h i none ≡ h' = λ o.
        elim o as (λ o. taken o ≡ done (a, h') → update h i none ≡ h') [
          | none ↦ λ c. cc c
          | some b ↦ λ c. cc c
        ] in
      subst (λ h'. Owned h' m) (found (h i) e) (Owned-removed i own)

  -- The frame of a task that ends is destroyed.
  dropped :
      {h : Handles} {m : Memory V} (i a : ℕ)
      → h i ≡ some a
      → Owned h m
      → drop_task i (h, m) ≡ done (update h i none, destroy a m)
  unfolding drop_task
  dropped {h} {m} i a e own =
      (elim (m.frames a)
          as (λ o. m.frames a ≡ o → drop_task i (h, m) ≡ done (update h i none, destroy a m)) [
            | none ↦ λ q. absurd (own.alive i a e q)
            | some f ↦ λ q. rw (e, drop_task) (rw (q, drop_task) refl)
          ])
        refl

  -- A frame without an owner.
  unowned :
      {h : Handles} {m : Memory V} (i a : ℕ)
      → h i ≡ some a
      → Owned h m
      → (j : ℕ) → update h i none j ≢ some a
  unowned {h} i a e own j e' = let (q, c) = erased_some h i j a e' in q (own.alone i j a e c)

  drop_null : {h : Handles} {m : Memory V} (i : ℕ) → h i ≡ none → drop_task i (h, m) ≡ done (h, m)
  unfolding drop_task
  drop_null i e = rw (e, drop_task) refl

  Owned-dropped :
      {h : Handles} {m : Memory V} {s' : Handles × Memory V} (i : ℕ)
      → drop_task i (h, m) ≡ done s'
      → Owned h m
      → Owned (s'.0) (s'.1)
  Owned-dropped {h} {m} {s'} i run own =
      (elim (h i) as (λ o. h i ≡ o → Owned (s'.0) (s'.1)) [
        | none ↦ λ e.
            let same : done (h, m) ≡ done s' = sym (drop_null i e) ∙ run in
            subst (λ s. Owned (s.0) (s.1)) (done_inj same) own
        | some a ↦ λ e.
            let same : done (update h i none, destroy a m) ≡ done s' =
              sym (dropped i a e own) ∙ run in
            subst (λ s. Owned (s.0) (s.1)) (done_inj same)
              (Owned-destroyed a (unowned i a e own) (Owned-removed i own))
      ])
        refl

  Owned-Step : {s s' : Handles × Memory V} → Step s s' → Owned (s.0) (s.1) → Owned (s'.0) (s'.1)
  Owned-Step (calls i body e) own = Owned-called i body own
  Owned-Step (moves i j e) own = Owned-moved i j own
  Owned-Step (assigns i j) own = Owned-assigned i j own
  Owned-Step (takes i a e) own = Owned-taken i a e own
  Owned-Step (drops i e) own = Owned-dropped i e own
  Owned-Step (ends a h) own = Owned-destroyed a h own

  Reach-Owned : {s : Handles × Memory V} → Reach s → Owned (s.0) (s.1)
  Reach-Owned (start m) = record {
    alone = λ i j a e e'. absurd (cc e);
    below = λ i a e. absurd (cc e);
    alive = λ i a e. absurd (cc e);
  }
  Reach-Owned (later r s) = Owned-Step s (Reach-Owned r)

  -- In every state that the program reaches, the destructor of a task that owns a frame finds the
  -- frame alive, destroys it, and leaves no task that owns it.
  pub drop_task-once :
      {h : Handles} {m : Memory V} (i a : ℕ)
      → Reach (h, m)
      → h i ≡ some a
      → (h' : Handles) × (m' : Memory V) × (drop_task i (h, m) ≡ done (h', m'))
        × (m'.frames a ≡ none)
        × ((j : ℕ) → h' j ≢ some a)
  unfolding destroy
  drop_task-once {h} {m} i a r e =
      let own = Reach-Owned r in
      (
        update h i none,
        destroy a m,
        dropped i a e own,
        update_same m.frames a none,
        unowned i a e own,
      )
