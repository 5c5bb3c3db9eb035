-- ===== src/Ead/Tests.antt =====
-- Runs of ikuzo/service/x/ead/task.go and service.go on small inputs, and the theorems at inputs that
-- exercise the code.
use hub.Prelude.{
  ℕ, ◌+◌, ◌≡◌, refl, true, false, Option, none, some, List, [], ◌∷◌, Text, codes, ℤ, sub_ℕ,
  text_discrete, ℕ_discrete, get, put, map, inl, arith, ap, ◌∙◌, if◌then◌else◌, if◌then◌else◌,
}
use hub.Ead.Task.{
  ProcessingState, submitted, pending, started, processing_description, processing_inventories,
  finished, Meta, Metrics, Task, is_active, is_active_state, find_pending, finish_transition,
  finish_state, move_state, stamp, set_processing_duration, finish_task, finish_with_error,
  next_from, next, inc_finished, inc_canceled, inc_failed, increment,
}
use hub.Ead.Task.Valid.{IsWellFormed, Reaches, submitted_task-IsWellFormed, history}
use hub.Ead.Task.Next.{after, next-Reaches}
use hub.Ead.Task.Clock.{IsTimed, next-IsTimed}
use hub.Ead.Service.{
  Service, task_already_submitted, find_task, sort_insert, sort_slice, available,
  find_available_task, submitted_task, test_task, enter_task, store_task, new_task, cancel,
  cancel_task,
}
use hub.Ead.Service.Laws.{
  any_active, pending_task, new_task_lem, IsExclusive, new_task-IsExclusive, CancelEnds,
  cancel_task_lem,
}
use hub.Ead.Process.{Work, done, process}
use hub.Ead.Process.Laws.{Ends, final_state, process-Ends}
use hub.Ead.Service.Available.{is_available, AllAvailableBefore, find_available_task_lem}

task_run : Unit {0}
unfolding find_pending finish_transition finish_state move_state stamp set_processing_duration
    finish_task finish_with_error next_from next inc_finished inc_canceled inc_failed increment
    is_active is_active_state find_task sort_insert sort_slice available find_available_task
    submitted_task test_task enter_task store_task new_task cancel cancel_task get put text_discrete
    ℕ_discrete
task_run = tt

abbrev label : ℤ → Text
label d = codes "d"

abbrev clock : ℕ → ℕ
clock k = k + 100

abbrev meta : Meta
meta = record {
  org_id = codes "org";
  dataset_id = codes "4.ZHPB2";
  title = [];
  clevels = 0;
  dao_links = 0;
  records_published = 0;
  digital_objects = 0;
  file_size = 7;
  created = false;
  processing_duration = sub_ℕ 0 0;
  processing_duration_fmt = [];
}

abbrev no_metrics : Metrics
no_metrics = record {
  submitted_count = 0;
  started_count = 0;
  failed_count = 0;
  finished_count = 0;
  canceled_count = 0;
  already_queued_count = 0;
}

abbrev new : Task
new = submitted_task 99 (codes "id") meta

new-IsWellFormed : IsWellFormed new
unfolding submitted_task
new-IsWellFormed = submitted_task-IsWellFormed (submitted_task 99 (codes "id") meta) refl refl refl

new-IsTimed : IsTimed new
unfolding submitted_task
new-IsTimed = record { all_closed = tt; last_closed = inl refl }

next-Reaches_example : Reaches label (next label clock no_metrics new) (after new.in_state)
next-Reaches_example = next-Reaches label clock no_metrics new new-IsWellFormed

abbrev waiting : Task
waiting = pending_task label clock (codes "id") meta

next_run : next label clock no_metrics new ≡ some (no_metrics, move_state label clock pending new)
unfolding next next_from submitted_task
next_run = refl

next-IsTimed_example : IsTimed (move_state label clock pending new)
next-IsTimed_example =
    next-IsTimed label clock no_metrics new (no_metrics, move_state label clock pending new)
      new-IsTimed next_run

abbrev empty_service : Service
empty_service = record { metrics = no_metrics; tasks = [] }

abbrev busy : Service
busy = record empty_service { tasks = (codes "id", waiting) ∷ [] }

new_task_example :
    new_task label clock (codes "other") meta busy
    ≡ some (
        if any_active meta.dataset_id busy.tasks then (busy, some task_already_submitted) else (
          record busy {
            tasks =
                put text_discrete
                  (codes "other")
                  (pending_task label clock (codes "other") meta)
                  busy.tasks;
          },
          none,
        ))
new_task_example = new_task_lem label clock (codes "other") meta busy

refused : new_task label clock (codes "other") meta busy ≡ some (busy, some task_already_submitted)
unfolding task_run
refused = refl

busy-IsExclusive : IsExclusive busy.tasks
unfolding IsExclusive get
busy-IsExclusive i j t u ei ej at au q = ground arith

empty-IsExclusive : IsExclusive empty_service.tasks
unfolding IsExclusive get
empty-IsExclusive i j t u ei ej at au q = absurd (cc)

accepted : new_task label clock (codes "id") meta empty_service ≡ some (busy, none)
unfolding task_run
accepted = refl

new_task-IsExclusive_example : IsExclusive busy.tasks
new_task-IsExclusive_example =
    new_task-IsExclusive label clock (codes "id") meta empty_service (busy, none) empty-IsExclusive
      accepted

abbrev canceled_service : Service
canceled_service = record {
  metrics = inc_canceled no_metrics;
  tasks =
      put text_discrete (codes "id") (finish_state label (clock 2) (cancel label clock waiting))
        busy.tasks;
}

cancel_task_example :
    CancelEnds label clock
      (codes "id")
      (codes "other")
      busy
      (get text_discrete (codes "id") busy.tasks)
      (cancel_task label clock (codes "id") busy)
cancel_task_example = cancel_task_lem label clock (codes "id") (codes "other") busy

-- Two uploads of one data set that are tested before either is entered leave two active tasks.
abbrev rival : Task
rival = pending_task label clock (codes "rival") meta

race_test :
    (test_task empty_service waiting ≡ none)
    × (test_task empty_service rival ≡ none)
    × (map (λ e. is_active e.1) (enter_task rival (enter_task waiting empty_service)).tasks
        ≡ true ∷ true ∷ [])
unfolding task_run
race_test = (refl, refl, refl)

cancel_run : cancel_task label clock (codes "id") busy ≡ some (canceled_service, none)
unfolding task_run
cancel_run = refl

available_run : find_available_task busy ≡ some waiting
unfolding task_run
available_run = refl

find_available_task_example :
    (is_available waiting ≡ true) × AllAvailableBefore waiting.current.started_at busy.tasks
find_available_task_example = find_available_task_lem busy waiting available_run

-- An interrupted task in the middle of its inventories is finished by the next `Next`.
abbrev interrupted_history : List ProcessingState
interrupted_history =
    submitted ∷ pending ∷ started ∷ processing_description ∷ processing_inventories ∷ finished
    ∷ finished ∷ []

abbrev step : Option (Metrics × Task) → Option (Metrics × Task)
step none = none
step (some r) = next label clock r.0 r.1

interrupted_test :
    elim (step (step (step (step (step (some (no_metrics, new))))))) [
      | none ↦ []
      | some r ↦ history r.1
    ]
    ≡ interrupted_history
unfolding task_run
interrupted_test = refl

-- A task that has been started, by the theorem about `Next`.
abbrev begun : Reaches label (next label clock no_metrics new) (after new.in_state)
begun = next-Reaches label clock no_metrics new new-IsWellFormed

abbrev started_task :
    Reaches label (next label clock no_metrics begun.0.1) (after begun.0.1.in_state)
started_task = next-Reaches label clock no_metrics begun.0.1 begun.3

is_begun : started_task.0.1.in_state ≡ started
unfolding after submitted_task
is_begun = started_task.2 ∙ ap after begun.2

abbrev work : Work
work = record {
  prepare_error = none;
  created = true;
  description_error = none;
  title = some (codes "title");
  waited = done;
  counts = record { clevels = 3; dao_links = 2; records_published = 5; digital_objects = 4 };
  write_error = none;
}

process-Ends_example :
    Ends (process label clock work no_metrics started_task.0.1) (final_state work)
process-Ends_example =
    process-Ends label clock work no_metrics started_task.0.1 is_begun started_task.3
