-- ===== src/Ead/Process/Laws.antt =====
-- ikuzo/service/x/ead/service.go: in which state `Process` leaves a task.
use hub.Prelude.{
  ℕ, ◌+◌, ◌≡◌, refl, true, Option, none, some, Text, ℤ, arith, if◌then◌else◌, Option-cases, inl,
  inr, subst, sym, ap, ◌∙◌,
}
use hub.Ead.Task.{
  ProcessingState, started, processing_description, processing_inventories, in_error, canceled,
  finished, Metrics, Task, is_active, is_active_state, inc_started, move_state, finish_task,
  finish_with_error, next,
}
use hub.Ead.Service.{cancel}
use hub.Ead.Task.Valid.{
  may_follow, IsWellFormed, Reaches, move_state-IsWellFormed, finish_with_error-IsWellFormed,
  finish_task-Reaches,
}
use hub.Ead.Task.Next.{after, next-Reaches}
use hub.Ead.Process.{
  Waited, done, task_canceled, interrupted, broke, Work, Outcome, is_description, and_then,
  without_error, set_created, set_title, set_clevels, set_interrupted, set_counts, set_metrics,
  cancel_running, conclude, inventories, describe, prepare, process,
}
use hub.Ead.Process.Changes.{
  set_created-IsWellFormed, in_state-set_title, set_title-IsWellFormed, set_clevels-IsWellFormed,
  set_interrupted-IsWellFormed, set_counts-IsWellFormed, set_metrics-IsWellFormed,
}

-- A result with a well-formed task in the state.
abbrev pub Ends : Outcome → ProcessingState → Type 0
Ends o s =
    (r : (Metrics × Task) × Option Text) × (o ≡ some r) × (r.0.1.in_state ≡ s) × IsWellFormed r.0.1

-- The state behind the wait for the goroutines.
abbrev pub waited_state : Waited → Option Text → ProcessingState
waited_state done none = finished
waited_state done (some _) = processing_inventories
waited_state task_canceled _ = canceled
waited_state interrupted _ = processing_inventories
waited_state (broke _) _ = in_error

-- The state that the answers lead to.
abbrev pub final_state : Work → ProcessingState
final_state w = elim w.prepare_error [
  | some _ ↦ in_error
  | none ↦ elim w.description_error [
    | some _ ↦ in_error
    | none ↦ waited_state w.waited w.write_error
  ]
]

Ends-along : (o o' : Outcome) (s s' : ProcessingState) → o ≡ o' → s ≡ s' → Ends o' s' → Ends o s
Ends-along o o' s s' p q h = subst (λ x. Ends x s) (sym p) (subst (Ends o') (sym q) h)

module _ (duration_string : ℤ → Text) (now : ℕ → ℕ) (w : Work) where
  failed-Ends :
      (clock : ℕ → ℕ) (e : Text) (m : Metrics) (t : Task)
      → is_active_state t.in_state ≡ true
      → IsWellFormed t
      → Ends (some (finish_with_error duration_string clock e m t, none)) in_error
  failed-Ends clock e m t active wf = (
    (finish_with_error duration_string clock e m t, none),
    refl,
    unfold finish_with_error move_state in refl,
    finish_with_error-IsWellFormed duration_string clock e m t active wf,
  )

  without_error-Ends :
      (o : Option (Metrics × Task)) (s : ProcessingState)
      → Reaches duration_string o s
      → Ends (without_error o) s
  without_error-Ends none s h = absurd (ground (arith, h.1))
  without_error-Ends (some r) s h =
      let same : h.0 ≡ r = ground (arith, h.1) in
      (
        (r, none),
        refl,
        subst (λ x. x.1.in_state ≡ s) same h.2,
        subst (λ x. IsWellFormed x.1) same h.3,
      )

  and_then-Ends :
      (o : Option (Metrics × Task)) (f : Metrics → Task → Outcome) (s s' : ProcessingState)
      → Reaches duration_string o s
      → ((m : Metrics) (t : Task) → t.in_state ≡ s → IsWellFormed t → Ends (f m t) s')
      → Ends (and_then o f) s'
  and_then-Ends none f s s' h g = absurd (ground (arith, h.1))
  and_then-Ends (some r) f s s' h g =
      let same : h.0 ≡ r = ground (arith, h.1) in
      g r.0 r.1 (subst (λ x. x.1.in_state ≡ s) same h.2) (subst (λ x. IsWellFormed x.1) same h.3)

  -- A task in the canceled state is canceled once more.
  canceled_again-Ends :
      (m : Metrics) (t : Task)
      → t.in_state ≡ canceled
      → IsWellFormed t
      → Ends
          (without_error (
            next duration_string
              (λ k. now (k + 30))
              m
              (move_state duration_string (λ k. now (k + 20)) canceled (set_clevels w t))))
          canceled
  canceled_again-Ends m t e wf =
      let t1 = move_state duration_string (λ k. now (k + 20)) canceled (set_clevels w t) in
      let at : t1.in_state ≡ canceled = unfold move_state in refl in
      let wf1 =
        move_state-IsWellFormed duration_string (λ k. now (k + 20)) canceled (set_clevels w t)
          (unfold set_clevels may_follow in rw e refl) (set_clevels-IsWellFormed w t wf) in
      without_error-Ends (next duration_string (λ k. now (k + 30)) m t1) canceled (
        subst (Reaches duration_string (next duration_string (λ k. now (k + 30)) m t1))
          (ap after at ∙ unfold after in refl)
          (next-Reaches duration_string (λ k. now (k + 30)) m t1 wf1))

  cancel-IsWellFormed :
      (clock : ℕ → ℕ) (t : Task)
      → t.in_state ≡ processing_inventories
      → IsWellFormed t
      → IsWellFormed (cancel duration_string clock t)
  unfolding cancel
  cancel-IsWellFormed clock t e wf =
      let moved =
        move_state-IsWellFormed duration_string clock canceled t (unfold may_follow in rw e refl)
          wf in
      record { in_last = moved.in_last; path = moved.path; was_pending = moved.was_pending }

  cancel_running-Reaches :
      (m : Metrics) (t : Task)
      → t.in_state ≡ processing_inventories
      → IsWellFormed t
      → Reaches duration_string (cancel_running duration_string now w m t) canceled
  unfolding cancel_running
  cancel_running-Reaches m t e wf =
      let t1 = cancel duration_string (λ k. now (k + 15)) t in
      let at : t1.in_state ≡ canceled = unfold cancel move_state in refl in
      subst (Reaches duration_string (next duration_string (λ k. now (k + 17)) m t1))
        (ap after at ∙ unfold after in refl)
        (next-Reaches duration_string (λ k. now (k + 17)) m t1
          (cancel-IsWellFormed (λ k. now (k + 15)) t e wf))

  conclude-Ends :
      (a : Waited) (m : Metrics) (t : Task)
      → t.in_state ≡ processing_inventories
      → IsWellFormed t
      → Ends (conclude duration_string now w a m t) (waited_state a w.write_error)
  unfolding conclude
  conclude-Ends done m t e wf = elim (Option-cases w.write_error) [
    | inl n ↦
        let t' = set_metrics w (set_counts w t) in
        rw (n, conclude, waited_state)
          (without_error-Ends (finish_task duration_string (λ k. now (k + 20)) m t') finished (
            finish_task-Reaches duration_string (λ k. now (k + 20)) m t'
              (unfold set_metrics set_counts may_follow in rw e refl)
              (set_metrics-IsWellFormed w (set_counts w t) (set_counts-IsWellFormed w t wf))))
    | inr failed ↦
        rw (failed.1, conclude, waited_state)
          (
            ((m, set_counts w t), some failed.0),
            refl,
            unfold set_counts in e,
            set_counts-IsWellFormed w t wf,
          )
  ]
  conclude-Ends task_canceled m t e wf =
      and_then-Ends (cancel_running duration_string now w m t)
        (λ m' t'. without_error (
          next duration_string (λ k. now (k + 30)) m'
            (move_state duration_string (λ k. now (k + 20)) canceled (set_clevels w t'))))
        canceled canceled (cancel_running-Reaches m t e wf) canceled_again-Ends
  conclude-Ends interrupted m t e wf = (
    ((m, set_interrupted (set_clevels w t)), none),
    refl,
    unfold set_interrupted set_clevels in e,
    set_interrupted-IsWellFormed w (set_clevels w t) (set_clevels-IsWellFormed w t wf),
  )
  conclude-Ends (broke message) m t e wf =
      failed-Ends (λ k. now (k + 20)) message m t (unfold is_active_state in rw e refl) wf

  inventories-Ends :
      (m : Metrics) (t : Task)
      → t.in_state ≡ processing_inventories
      → IsWellFormed t
      → Ends (inventories duration_string now w m t) (waited_state w.waited w.write_error)
  unfolding inventories
  inventories-Ends m t e wf =
      Ends-along (inventories duration_string now w m t)
        (conclude duration_string now w w.waited m t) (waited_state w.waited w.write_error)
        (waited_state w.waited w.write_error) (ground (arith, e)) refl
        (conclude-Ends w.waited m t e wf)

  -- The state behind the description.
  abbrev described_state : Option Text → ProcessingState
  described_state (some _) = in_error
  described_state none = waited_state w.waited w.write_error

  describe-Ends :
      (m : Metrics) (t : Task)
      → t.in_state ≡ processing_description
      → IsWellFormed t
      → Ends (describe duration_string now w m t) (described_state w.description_error)
  unfolding describe
  describe-Ends m t e wf =
      let t' = set_title w t in
      let at : t'.in_state ≡ processing_description = in_state-set_title w t wf ∙ e in
      elim (Option-cases w.description_error) [
        | inl n ↦
            let clock : ℕ → ℕ = λ k. now (k + 10) in
            rw (e, is_description, if◌then◌else◌, n, described_state)
              (and_then-Ends (next duration_string clock m t') (inventories duration_string now w)
                processing_inventories (waited_state w.waited w.write_error)
                (subst (Reaches duration_string (next duration_string clock m t'))
                  (ap after at ∙ unfold after in refl)
                  (next-Reaches duration_string clock m t' (set_title-IsWellFormed w t wf)))
                inventories-Ends)
        | inr failed ↦
            rw (e, is_description, if◌then◌else◌, failed.1, described_state)
              (failed-Ends (λ k. now (k + 10)) failed.0 m t' (unfold is_active_state in rw at refl)
                (set_title-IsWellFormed w t wf))
      ]

  prepare-Ends :
      (m : Metrics) (t : Task)
      → t.in_state ≡ processing_description
      → IsWellFormed t
      → Ends (prepare duration_string now w m t) (final_state w)
  unfolding prepare
  prepare-Ends m t e wf = elim (Option-cases w.prepare_error) [
    | inl n ↦
        Ends-along (prepare duration_string now w m t)
          (describe duration_string now w m (set_created w t)) (final_state w)
          (described_state w.description_error) (ground (arith, n)) (ground (arith, n))
          (describe-Ends m (set_created w t) (unfold set_created in e)
            (set_created-IsWellFormed w t wf))
    | inr failed ↦
        Ends-along (prepare duration_string now w m t)
          (some (finish_with_error duration_string (λ k. now (k + 5)) failed.0 m t, none))
          (final_state w) in_error (ground (arith, failed.1)) (ground (arith, failed.1))
          (failed-Ends (λ k. now (k + 5)) failed.0 m t (unfold is_active_state in rw e refl) wf)
  ]

  -- `Process` of a well-formed task that has just been started does not panic. The state that it
  -- leaves the task in is told by the answers alone: the error state if the preparation, the
  -- description or the goroutines fail, the canceled state if the task is canceled, the inventories
  -- state if it is interrupted or its metadata cannot be written, and the finished state otherwise.
  -- The task it leaves is well formed.
  pub process-Ends :
      (m : Metrics) (t : Task)
      → t.in_state ≡ started
      → IsWellFormed t
      → Ends (process duration_string now w m t) (final_state w)
  unfolding process is_active is_active_state
  process-Ends m t e wf =
      let first = next duration_string now (inc_started m) t in
      Ends-along (process duration_string now w m t)
        (and_then first (prepare duration_string now w)) (final_state w) (final_state w)
        (ground (arith, e)) refl
        (and_then-Ends first (prepare duration_string now w) processing_description (final_state w)
          (subst (Reaches duration_string first) (ap after e ∙ unfold after in refl)
            (next-Reaches duration_string now (inc_started m) t wf))
          prepare-Ends)
