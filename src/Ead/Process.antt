-- ===== src/Ead/Process.antt =====
-- ikuzo/service/x/ead/service.go: `Process`, which runs a task. What the files, the XML parser, the
-- stores and the group of goroutines answer is a parameter, `Work`; the order in which they are asked
-- and what the task makes of the answers is modelled. The only other operation that works on the task
-- meanwhile is a `CancelTask`, as one step while the goroutines run.
pub mod Changes
pub mod Laws
use hub.Ead.Service.{cancel}
use hub.Prelude.{
  ℕ, ◌+◌, Bool, true, false, Option, none, some, List, [], ◌∷◌, Text, codes, ℤ, if◌then◌else◌,
}
use hub.Ead.Task.{
  ProcessingState, started, processing_description, processing_inventories, canceled, Metrics, Task,
  is_active, inc_started, move_state, finish_task, finish_with_error, next,
}

-- The numbers that the counters of the configuration have at the end.
pub record Counts : Type 0 where
  pub clevels : ℕ
  pub dao_links : ℕ
  pub records_published : ℕ
  pub digital_objects : ℕ

-- What `g.Wait` returns: no error, `context.Canceled` with or without that of the task, or another.
pub data Waited : Type 0 where
  done task_canceled interrupted : Waited
  broke : Text → Waited

pub record Work : Type 0 where
  pub prepare_error : Option Text
  pub created : Bool
  pub description_error : Option Text
  pub title : Option Text
  pub waited : Waited
  pub counts : Counts
  pub write_error : Option Text

-- The metrics, the task and the error that the worker gets.
abbrev pub Outcome : Type 0
Outcome = Option ((Metrics × Task) × Option Text)

abbrev pub is_started : ProcessingState → Bool
is_started started = true
is_started _ = false

abbrev pub is_description : ProcessingState → Bool
is_description processing_description = true
is_description _ = false

abbrev pub is_inventories : ProcessingState → Bool
is_inventories processing_inventories = true
is_inventories _ = false

-- A step that returns no error, and a panic is passed on.
abbrev pub and_then : Option (Metrics × Task) → (Metrics → Task → Outcome) → Outcome
and_then none f = none
and_then (some r) f = f r.0 r.1

abbrev pub without_error : Option (Metrics × Task) → Outcome
without_error none = none
without_error (some r) = some (r, none)

unfoldable pub set_created : Work → Task → Task
set_created w t = record t { meta = record t.meta { created = w.created } }

-- `saveDescription` sets the title as soon as there is a description, also if it fails later.
unfoldable pub set_title : Work → Task → Task
set_title w t = elim w.title [
  | none ↦ t
  | some title ↦ record t { meta = record t.meta { title = title } }
]

unfoldable pub set_clevels : Work → Task → Task
set_clevels w t = record t { meta = record t.meta { clevels = w.counts.clevels } }

unfoldable pub set_interrupted : Task → Task
set_interrupted t = record t { interrupted = true }

unfoldable pub set_counts : Work → Task → Task
set_counts w t = record t {
  meta = record t.meta {
    clevels = w.counts.clevels;
    dao_links = w.counts.dao_links;
    records_published = w.counts.records_published;
    digital_objects = w.counts.digital_objects;
  };
}

-- `t.Transitions[len(t.Transitions)-1].Metrics = metrics`
unfoldable pub set_metrics : Work → Task → Task
set_metrics w t = record t {
  current = record t.current {
    metrics =
        1 ∷ w.counts.clevels ∷ w.counts.dao_links ∷ w.counts.records_published
        ∷ w.counts.digital_objects ∷ [];
  };
}

module _ (duration_string : ℤ → Text) (now : ℕ → ℕ) (w : Work) where
  -- What a `CancelTask` makes of the running task: it is what cancels the context of the task.
  unfoldable pub cancel_running : Metrics → Task → Option (Metrics × Task)
  cancel_running m t =
      next duration_string (λ k. now (k + 17)) m (cancel duration_string (λ k. now (k + 15)) t)

  -- Behind `g.Wait`.
  unfoldable pub conclude : Waited → Metrics → Task → Outcome
  conclude done m t = elim w.write_error [
    | some e ↦ some ((m, set_counts w t), some e)
    | none ↦
        without_error
          (finish_task duration_string (λ k. now (k + 20)) m (set_metrics w (set_counts w t)))
  ]
  conclude task_canceled m t = and_then (cancel_running m t) (λ m' t'. without_error (
      next duration_string (λ k. now (k + 30)) m'
        (move_state duration_string (λ k. now (k + 20)) canceled (set_clevels w t'))))
  conclude interrupted m t = some ((m, set_interrupted (set_clevels w t)), none)
  conclude (broke e) m t = some (finish_with_error duration_string (λ k. now (k + 20)) e m t, none)

  unfoldable pub inventories : Metrics → Task → Outcome
  inventories m t =
      if is_inventories t.in_state
      then conclude w.waited m t
      else some ((m, t), some (codes "invalid state for processing inventories"))

  unfoldable pub describe : Metrics → Task → Outcome
  describe m t =
      if is_description t.in_state
      then elim w.description_error [
        | some e ↦
            some (finish_with_error duration_string (λ k. now (k + 10)) e m (set_title w t), none)
        | none ↦ and_then (next duration_string (λ k. now (k + 10)) m (set_title w t)) inventories
      ]
      else inventories m t

  unfoldable pub prepare : Metrics → Task → Outcome
  prepare m t = elim w.prepare_error [
    | some e ↦ some (finish_with_error duration_string (λ k. now (k + 5)) e m t, none)
    | none ↦ describe m (set_created w t)
  ]

  unfoldable pub process : Metrics → Task → Outcome
  process m t =
      if is_active t
      then if is_started t.in_state
        then and_then (next duration_string now (inc_started m) t) prepare
        else prepare m t
      else some ((m, t), none)
