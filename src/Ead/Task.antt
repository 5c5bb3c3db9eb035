-- ===== src/Ead/Task.antt =====
-- ikuzo/service/x/ead/task.go: a task, the states it goes through and their history. `now k` is what
-- the k-th call of `time.Now` inside an operation returns; `duration_string` stands for
-- `time.Duration.String`. An operation returns `none` where Go would panic. Logging is left out.
pub mod Valid
pub mod Next
pub mod Clock
use hub.Prelude.{
  ℕ, zero, suc, ◌+◌, ◌%◌, Bool, true, false, Option, none, some, List, [], ◌∷◌, ◌++◌, Text, ℤ,
  sub_ℕ, not, if◌then◌else◌,
}

pub data ProcessingState : Type 0 where
  submitted pending started processing_description processing_mets_files processing_inventories
        in_error canceled finished :
      ProcessingState

-- A time is `none` for Go's zero time. The metrics of a transition are the numbers it is given.
pub record Transition : Type 0 where
  pub state : ProcessingState
  pub started_at : ℕ
  pub finished_at : Option ℕ
  pub metrics : List ℕ
  pub duration : ℤ
  pub duration_fmt : Text

-- Without the base path, the tags and the errors of the METS files, which no operation here sets.
pub record Meta : Type 0 where
  pub org_id : Text
  pub dataset_id : Text
  pub title : Text
  pub clevels : ℕ
  pub dao_links : ℕ
  pub records_published : ℕ
  pub digital_objects : ℕ
  pub file_size : ℕ
  pub created : Bool
  pub processing_duration : ℤ
  pub processing_duration_fmt : Text

pub record Metrics : Type 0 where
  pub submitted_count : ℕ
  pub started_count : ℕ
  pub failed_count : ℕ
  pub finished_count : ℕ
  pub canceled_count : ℕ
  pub already_queued_count : ℕ

-- `Transitions` is `earlier` and, behind it, `current`: a task is only made with one transition.
pub record Task : Type 0 where
  pub id : Text
  pub meta : Meta
  pub in_state : ProcessingState
  pub error_msg : Text
  pub earlier : List Transition
  pub current : Transition
  pub interrupted : Bool
  pub context_canceled : Bool

-- `atomic.AddUint64(…, 1)`
unfoldable pub increment : ℕ → ℕ
increment n = (n + 1) % 18446744073709551616

unfoldable pub inc_submitted : Metrics → Metrics
inc_submitted m = record m { submitted_count = increment m.submitted_count }

unfoldable pub inc_started : Metrics → Metrics
inc_started m = record m { started_count = increment m.started_count }

unfoldable pub inc_failed : Metrics → Metrics
inc_failed m = record m { failed_count = increment m.failed_count }

unfoldable pub inc_finished : Metrics → Metrics
inc_finished m = record m { finished_count = increment m.finished_count }

unfoldable pub inc_canceled : Metrics → Metrics
inc_canceled m = record m { canceled_count = increment m.canceled_count }

unfoldable pub inc_already_queued : Metrics → Metrics
inc_already_queued m = record m { already_queued_count = increment m.already_queued_count }

unfoldable pub is_active_state : ProcessingState → Bool
is_active_state in_error = false
is_active_state canceled = false
is_active_state finished = false
is_active_state _ = true

unfoldable pub is_active : Task → Bool
is_active t = is_active_state t.in_state

abbrev pub is_pending : ProcessingState → Bool
is_pending pending = true
is_pending _ = false

-- The first transition to the pending state.
unfoldable pub find_pending : List Transition → Option Transition
find_pending [] = none
find_pending (tr ∷ trs) = if is_pending tr.state then some tr else find_pending trs

-- `Time.Sub`; the zero time is taken as instant 0.
abbrev pub sub_time : Option ℕ → Option ℕ → ℤ
sub_time (some a) (some b) = sub_ℕ a b
sub_time (some a) none = sub_ℕ a 0
sub_time none (some b) = sub_ℕ 0 b
sub_time none none = sub_ℕ 0 0

abbrev pub new_transition : ProcessingState → ℕ → List ℕ → Transition
new_transition state time metrics = record {
  state = state;
  started_at = time;
  finished_at = none;
  metrics = metrics;
  duration = sub_ℕ 0 0;
  duration_fmt = [];
}

module _ (duration_string : ℤ → Text) where
  unfoldable pub finish_transition : ℕ → Transition → Transition
  finish_transition time tr = record tr {
    finished_at = some time;
    duration = sub_ℕ time tr.started_at;
    duration_fmt = duration_string (sub_ℕ time tr.started_at);
  }

  unfoldable pub finish_state : ℕ → Task → Task
  finish_state time t = record t { current = finish_transition time t.current }

  unfoldable pub move_state : (ℕ → ℕ) → ProcessingState → Task → Task
  move_state now state t = record t {
    in_state = state;
    earlier = t.earlier ++ finish_transition (now 0) t.current ∷ [];
    current = new_transition state (now 1) [];
  }

  -- `last.Finished = time.Now()`
  unfoldable pub stamp : ℕ → Task → Task
  stamp time t = record t { current = record t.current { finished_at = some time } }

  unfoldable pub set_processing_duration : ℤ → Task → Task
  set_processing_duration d t = record t {
    meta = record t.meta { processing_duration = d; processing_duration_fmt = duration_string d };
  }

  unfoldable pub finish_task : (ℕ → ℕ) → Metrics → Task → Option (Metrics × Task)
  finish_task now m t =
      let t1 = stamp (now 0) t in
      elim (find_pending (t1.earlier ++ t1.current ∷ [])) [
        | none ↦ none
        | some start_processing ↦
            let t2 =
              set_processing_duration (sub_time (some (now 0)) start_processing.finished_at) t1 in
            let t3 = move_state (λ k. now (suc k)) finished t2 in
            some (inc_finished m, finish_state (now 3) t3)
      ]

  -- `finishWithError` returns no error.
  unfoldable pub finish_with_error : (ℕ → ℕ) → Text → Metrics → Task → Metrics × Task
  finish_with_error now message m t =
      let t' = move_state (λ k. now (suc k)) in_error (finish_state (now 0) t) in
      (inc_failed m, record t' { error_msg = message })

  unfoldable pub next_from : ProcessingState → (ℕ → ℕ) → Metrics → Task → Option (Metrics × Task)
  next_from submitted now m t = some (m, move_state now pending t)
  next_from pending now m t = some (m, move_state now started t)
  next_from started now m t = some (m, move_state now processing_description t)
  next_from processing_description now m t = some (m, move_state now processing_inventories t)
  next_from processing_inventories now m t =
      finish_task (λ k. now (k + 2)) m (move_state now finished t)
  next_from in_error now m t = some (m, finish_state (now 0) t)
  next_from canceled now m t = some (inc_canceled m, finish_state (now 0) t)
  next_from processing_mets_files now m t = some (m, t)
  next_from finished now m t = some (m, t)

  unfoldable pub next : (ℕ → ℕ) → Metrics → Task → Option (Metrics × Task)
  next now m t = next_from t.in_state now m t
