-- ===== src/Ead/Task/Clock.antt =====
-- ikuzo/service/x/ead/task.go: the times of a task. Every transition that has ended carries its
-- duration, whatever the clock returned.
use hub.Prelude.{
  ℕ, suc, ◌+◌, ◌≡◌, refl, Option, none, some, [], ◌∷◌, ◌⊎◌, ◌++◌, Text, ℤ, sub_ℕ, All, All-append,
  Option-cases, inl, inr, subst,
}
use hub.Ead.Task.{
  ProcessingState, submitted, pending, started, processing_description, processing_mets_files,
  processing_inventories, in_error, canceled, finished, Transition, Metrics, Task, find_pending,
  sub_time, finish_transition, finish_state, move_state, stamp, set_processing_duration,
  finish_task, next_from, next,
}

-- The transition has ended and lasted from its start to its end.
abbrev pub Closed : Transition → Type 0
Closed tr = (f : ℕ) × (tr.finished_at ≡ some f) × (tr.duration ≡ sub_ℕ f tr.started_at)

-- All transitions but the last are closed, and the last if it has ended.
pub record IsTimed (t : Task) : Type 0 where
  pub all_closed : All Closed t.earlier
  pub last_closed : (t.current.finished_at ≡ none) ⊎ Closed t.current

module _ (duration_string : ℤ → Text) where
  finish_transition-Closed :
      (time : ℕ) (tr : Transition) → Closed (finish_transition duration_string time tr)
  unfolding finish_transition
  finish_transition-Closed time tr = (time, refl, refl)

  finish_state-IsTimed :
      (time : ℕ) (t : Task) → All Closed t.earlier → IsTimed (finish_state duration_string time t)
  unfolding finish_state
  finish_state-IsTimed time t h = record {
    all_closed = h;
    last_closed = inr (finish_transition-Closed time t.current);
  }

  move_state-IsTimed :
      (now : ℕ → ℕ) (s : ProcessingState) (t : Task)
      → All Closed t.earlier
      → IsTimed (move_state duration_string now s t)
  unfolding move_state
  move_state-IsTimed now s t h = record {
    all_closed =
        All-append Closed t.earlier (finish_transition duration_string (now 0) t.current ∷ []) h
          (finish_transition-Closed (now 0) t.current, tt);
    last_closed = inl refl;
  }

  -- What an operation returns, if it does not panic, is timed.
  abbrev TimedResult : Option (Metrics × Task) → Type 0
  TimedResult none = Unit
  TimedResult (some r) = IsTimed r.1

  finish_task-TimedResult :
      (now : ℕ → ℕ) (m : Metrics) (t : Task)
      → All Closed t.earlier
      → TimedResult (finish_task duration_string now m t)
  unfolding finish_task
  finish_task-TimedResult now m t h =
      let t1 = stamp duration_string (now 0) t in
      elim (Option-cases (find_pending (t1.earlier ++ t1.current ∷ []))) [
        | inl n ↦ rw (n, finish_task, TimedResult) tt
        | inr found ↦
            let d = sub_time (some (now 0)) found.0.finished_at in
            let t2 = set_processing_duration duration_string d t1 in
            let t3 = move_state duration_string (λ k. now (suc k)) finished t2 in
            let kept : All Closed t2.earlier = unfold set_processing_duration stamp in h in
            rw (found.1, finish_task, TimedResult)
              (finish_state-IsTimed (now 3) t3
                (move_state-IsTimed (λ k. now (suc k)) finished t2 kept).all_closed)
      ]

  next_from-TimedResult :
      (s : ProcessingState) (now : ℕ → ℕ) (m : Metrics) (t : Task)
      → IsTimed t
      → TimedResult (next_from duration_string s now m t)
  unfolding next_from
  next_from-TimedResult submitted now m t h = move_state-IsTimed now pending t h.all_closed
  next_from-TimedResult pending now m t h = move_state-IsTimed now started t h.all_closed
  next_from-TimedResult started now m t h =
      move_state-IsTimed now processing_description t h.all_closed
  next_from-TimedResult processing_description now m t h =
      move_state-IsTimed now processing_inventories t h.all_closed
  next_from-TimedResult processing_inventories now m t h =
      finish_task-TimedResult (λ k. now (k + 2)) m (move_state duration_string now finished t)
        (move_state-IsTimed now finished t h.all_closed).all_closed
  next_from-TimedResult in_error now m t h = finish_state-IsTimed (now 0) t h.all_closed
  next_from-TimedResult canceled now m t h = finish_state-IsTimed (now 0) t h.all_closed
  next_from-TimedResult processing_mets_files now m t h = h
  next_from-TimedResult finished now m t h = h

  -- `Next` keeps every duration in step with the times beside it.
  pub next-IsTimed :
      (now : ℕ → ℕ) (m : Metrics) (t : Task) (r : Metrics × Task)
      → IsTimed t
      → next duration_string now m t ≡ some r
      → IsTimed r.1
  unfolding next
  next-IsTimed now m t r h e = subst TimedResult e (next_from-TimedResult t.in_state now m t h)
