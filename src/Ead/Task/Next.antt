-- ===== src/Ead/Task/Next.antt =====
-- ikuzo/service/x/ead/task.go: `Next`, which goes on along the path.
use hub.Prelude.{ℕ, ◌+◌, ◌≡◌, refl, true, some, Text, ℤ}
use hub.Ead.Task.{
  ProcessingState, submitted, pending, started, processing_description, processing_mets_files,
  processing_inventories, in_error, canceled, finished, Metrics, Task, inc_canceled, finish_state,
  move_state, next_from, next,
}
use hub.Ead.Task.Valid.{
  may_follow, IsWellFormed, Reaches, move_state-IsWellFormed, finish_state-IsWellFormed,
  finish_task-Reaches,
}

-- The state that `Next` comes to.
unfoldable pub after : ProcessingState → ProcessingState
after submitted = pending
after pending = started
after started = processing_description
after processing_description = processing_inventories
after processing_inventories = finished
after processing_mets_files = processing_mets_files
after in_error = in_error
after canceled = canceled
after finished = finished

module _ (duration_string : ℤ → Text) where
  moved-Reaches :
      (now : ℕ → ℕ) (m : Metrics) (s : ProcessingState) (t : Task)
      → may_follow t.in_state s ≡ true
      → IsWellFormed t
      → Reaches duration_string (some (m, move_state duration_string now s t)) s
  moved-Reaches now m s t f wf = (
    (m, move_state duration_string now s t),
    refl,
    unfold move_state in refl,
    move_state-IsWellFormed duration_string now s t f wf,
  )

  next_from-Reaches :
      (s : ProcessingState) (now : ℕ → ℕ) (m : Metrics) (t : Task)
      → t.in_state ≡ s
      → IsWellFormed t
      → Reaches duration_string (next_from duration_string s now m t) (after s)
  unfolding next_from after may_follow
  next_from-Reaches submitted now m t e wf = moved-Reaches now m pending t (rw e refl) wf
  next_from-Reaches pending now m t e wf = moved-Reaches now m started t (rw e refl) wf
  next_from-Reaches started now m t e wf =
      moved-Reaches now m processing_description t (rw e refl) wf
  next_from-Reaches processing_description now m t e wf =
      moved-Reaches now m processing_inventories t (rw e refl) wf
  next_from-Reaches processing_inventories now m t e wf =
      let t1 = move_state duration_string now finished t in
      let f : may_follow t1.in_state finished ≡ true = unfold move_state in refl in
      finish_task-Reaches duration_string (λ k. now (k + 2)) m t1 f
        (move_state-IsWellFormed duration_string now finished t (rw e refl) wf)
  next_from-Reaches in_error now m t e wf = (
    (m, finish_state duration_string (now 0) t),
    refl,
    unfold finish_state in e,
    finish_state-IsWellFormed duration_string (now 0) t wf,
  )
  next_from-Reaches canceled now m t e wf = (
    (inc_canceled m, finish_state duration_string (now 0) t),
    refl,
    unfold finish_state in e,
    finish_state-IsWellFormed duration_string (now 0) t wf,
  )
  next_from-Reaches processing_mets_files now m t e wf = ((m, t), refl, e, wf)
  next_from-Reaches finished now m t e wf = ((m, t), refl, e, wf)

  -- `Next` never panics on a well-formed task; it comes to the state behind its own, and its history
  -- is a path still.
  pub next-Reaches :
      (now : ℕ → ℕ) (m : Metrics) (t : Task)
      → IsWellFormed t
      → Reaches duration_string (next duration_string now m t) (after t.in_state)
  unfolding next
  next-Reaches now m t wf = next_from-Reaches t.in_state now m t refl wf
