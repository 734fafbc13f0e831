-- ===== src/Await/Progress.antt =====
-- What holds of every awaiter and in every order of its steps.
use uvio.Prelude.{
  ◌≡◌, ◌≢◌, ◌⊎◌, inl, inr, refl, sym, ap, ◌∙◌, Bool, true, false, Option, none, some, Bool-cases,
}
use uvio.Await.{
  Awaiter, Coroutine, running, suspended, resumed, Waiting, begin, complete, Step, Reach,
}

true_or_false : (b : Bool) → b ≡ true → b ≢ false
true_or_false b e e' = cc

module _ (A : Awaiter) where
  -- A state that the callback left behind, for an event `e`.
  abbrev pub Answered : A.State → A.Event → Type 0
  Answered a e = (a' : A.State) × A.Fresh a' × (a ≡ (A.callback e a').0)

  pub data Stands (s : Waiting A) : Type 0 where
    asking :
        s.coroutine ≡ running
        → s.called ≡ none
        → A.await_ready s.awaiter ≡ false
        → A.has_handle s.awaiter ≡ false
        → A.Fresh s.awaiter
        → Stands s
    answered :
        (e : A.Event) → s.coroutine ≡ running → s.called ≡ some e → Answered s.awaiter e → Stands s
    waiting :
        s.coroutine ≡ suspended
        → s.called ≡ none
        → A.has_handle s.awaiter ≡ true
        → A.Fresh s.awaiter
        → Stands s
    stuck : (e : A.Event) → s.coroutine ≡ suspended → s.called ≡ some e → ¬ A.Settles e → Stands s
    over :
        (e : A.Event) → s.coroutine ≡ resumed → s.called ≡ some e → Answered s.awaiter e → Stands s

  complete_asleep :
      (e : A.Event) (s : Waiting A)
      → (A.callback e s.awaiter).1 ≡ false
      → complete A e s
        ≡ record { awaiter = (A.callback e s.awaiter).0; coroutine = s.coroutine; called = some e }
  unfolding complete
  complete_asleep e s h = rw h refl

  complete_awake :
      (e : A.Event) (s : Waiting A)
      → (A.callback e s.awaiter).1 ≡ true
      → complete A e s
        ≡ record { awaiter = (A.callback e s.awaiter).0; coroutine = resumed; called = some e }
  unfolding complete
  complete_awake e s h = rw h refl

  -- Two stands that cannot be at once.
  not_running : (c : Coroutine) → c ≡ running → c ≢ suspended
  not_running c e e' = cc

  past_running : (c : Coroutine) → c ≡ running → c ≢ resumed
  past_running c e e' = cc

  was_called : (o : Option A.Event) (e : A.Event) → o ≡ none → o ≢ some e
  was_called o e h h' = cc

  go-Stands :
      (s : Waiting A)
      → s.coroutine ≡ running
      → A.await_ready s.awaiter ≡ true
      → Stands s
      → Stands (record s { coroutine = resumed })
  go-Stands s run ready (asking h h' no_answer h3 new) =
      absurd (true_or_false (A.await_ready s.awaiter) ready no_answer)
  go-Stands s run ready (answered e h h' a) = over e refl h' a
  go-Stands s run ready (waiting h h' h2 new) = absurd (not_running s.coroutine run h)
  go-Stands s run ready (stuck e h h' h2) = absurd (not_running s.coroutine run h)
  go-Stands s run ready (over e h h' h2) = absurd (past_running s.coroutine run h)

  suspend-Stands :
      (s : Waiting A)
      → s.coroutine ≡ running
      → A.await_ready s.awaiter ≡ false
      → Stands s
      → Stands (record s { awaiter = A.await_suspend s.awaiter; coroutine = suspended })
  suspend-Stands s run ready (asking h h' h2 h3 new) =
      waiting refl h' (A.suspend_handle s.awaiter) (A.suspend_fresh s.awaiter new)
  suspend-Stands s run ready (answered e h h' (a, new, p)) = stuck e refl h' (λ good.
      true_or_false (A.await_ready s.awaiter) (ap A.await_ready p ∙ A.callback_ready e a good)
        ready)
  suspend-Stands s run ready (waiting h h' h2 new) = absurd (not_running s.coroutine run h)
  suspend-Stands s run ready (stuck e h h' h2) = absurd (not_running s.coroutine run h)
  suspend-Stands s run ready (over e h h' h2) = absurd (past_running s.coroutine run h)

  complete-Stands :
      (e : A.Event) (s : Waiting A) → s.called ≡ none → Stands s → Stands (complete A e s)
  complete-Stands e s fresh (asking h h' h2 bare new) =
      rw (complete_asleep e s (A.callback_handle e s.awaiter bare))
        (answered e h refl (s.awaiter, new, refl))
  complete-Stands e s fresh (waiting h h' held new) =
      elim (Bool-cases ((A.callback e s.awaiter).1)) [
        | inl wakes ↦ rw (complete_awake e s wakes) (over e refl refl (s.awaiter, new, refl))
        | inr sleeps ↦ rw (complete_asleep e s sleeps) (
            stuck e h refl (λ good.
              true_or_false ((A.callback e s.awaiter).1) (A.callback_wakes e s.awaiter good held)
                sleeps))
      ]
  complete-Stands e s fresh (answered e' h h' a) = absurd (was_called s.called e' fresh h')
  complete-Stands e s fresh (stuck e' h h' a) = absurd (was_called s.called e' fresh h')
  complete-Stands e s fresh (over e' h h' a) = absurd (was_called s.called e' fresh h')

  Step-Stands : {s t : Waiting A} → Step A s t → Stands s → Stands t
  Step-Stands {s} (Step.goes_on h h') k = go-Stands s h h' k
  Step-Stands {s} (Step.suspends h h') k = suspend-Stands s h h' k
  Step-Stands {s} (Step.completes e h) k = complete-Stands e s h k

  pub Reach-Stands : {s : Waiting A} → Reach A (begin A) s → Stands s
  Reach-Stands Reach.here = asking refl refl A.start_ready A.start_handle A.start_fresh
  Reach-Stands (Reach.later r step) = Step-Stands step (Reach-Stands r)

  -- The callback resumes the handle of no coroutine but a suspended one that it has not resumed yet.
  pub wakes-suspended :
      {s : Waiting A} (e : A.Event)
      → Reach A (begin A) s
      → s.called ≡ none
      → (A.callback e s.awaiter).1 ≡ true
      → s.coroutine ≡ suspended
  wakes-suspended {s} e r fresh wakes = elim (Reach-Stands r) [
    | asking h h' h2 bare new ↦
        absurd
          (true_or_false ((A.callback e s.awaiter).1) wakes (A.callback_handle e s.awaiter bare))
    | answered e' h h' a ↦ absurd (was_called s.called e' fresh h')
    | waiting h h' h2 new ↦ h
    | stuck e' h h' h2 ↦ absurd (was_called s.called e' fresh h')
    | over e' h h' h2 ↦ absurd (was_called s.called e' fresh h')
  ]

  -- Once the callback has come with an event that settles the awaiter, the coroutine is past its
  -- `co_await`, or goes on without being suspended, and what it gets is the outcome of the event.
  abbrev pub Returns : Waiting A → A.Event → Type 0
  Returns s e =
      ((s.coroutine ≡ resumed) ⊎ ((s.coroutine ≡ running) × (A.await_ready s.awaiter ≡ true)))
      × ((A.await_resume s.awaiter).0 ≡ A.outcome e)

  some_same : (o : Option A.Event) (e e' : A.Event) → o ≡ some e → o ≡ some e' → e ≡ e'
  some_same o e e' h h' = cc

  Answered-outcome :
      (a : A.State) (e e' : A.Event)
      → A.Settles e
      → e ≡ e'
      → Answered a e'
      → (A.await_ready a ≡ true) × ((A.await_resume a).0 ≡ A.outcome e)
  Answered-outcome a e e' good same (a', new, p) =
      let p' = p ∙ ap (λ t. (A.callback t a').0) (sym same) in
      (
        ap A.await_ready p' ∙ A.callback_ready e a' good,
        ap (λ t. (A.await_resume t).0) p' ∙ A.callback_outcome e a' new good,
      )

  pub settled-Returns :
      {s : Waiting A} (e : A.Event)
      → Reach A (begin A) s
      → A.Settles e
      → s.called ≡ some e
      → Returns s e
  settled-Returns {s} e r good came = elim (Reach-Stands r) [
    | asking h h' h2 bare new ↦ absurd (was_called s.called e h' came)
    | waiting h h' h2 new ↦ absurd (was_called s.called e h' came)
    | stuck e' h h' bad ↦ absurd (bad (rw (sym (some_same s.called e e' came h')) good))
    | answered e' h h' a ↦
        let (ready, got) =
          Answered-outcome s.awaiter e e' good (some_same s.called e e' came h') a in
        (inr (h, ready), got)
    | over e' h h' a ↦
        (inl h, (Answered-outcome s.awaiter e e' good (some_same s.called e e' came h') a).1)
  ]
