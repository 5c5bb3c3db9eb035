-- ===== src/Ead/Service.antt =====
-- ikuzo/service/x/ead/service.go: the tasks that the service keeps, and its part of task.go. The map
-- holds pointers; an operation on a task of the map is put back under the task's identifier. `now k`
-- is what the k-th call of `time.Now` returns. The locks make an operation one step, but for `NewTask`: it
-- is the step `test_task` and the step `enter_task`, and Go holds no lock between the two.
pub mod Laws
pub mod Available
use hub.Prelude.{
  ℕ, suc, ◌+◌, Bool, true, false, ◌&&◌, ◌||◌, Option, none, some, List, [], ◌∷◌, Text, ℤ,
  text_discrete, get, put, ltb, ite, not, if◌then◌else◌,
}
use hub.Ead.Task.{
  ProcessingState, submitted, canceled, Meta, Metrics, Task, is_active, is_pending, new_transition,
  move_state, next,
}

pub record Service : Type 0 where
  pub metrics : Metrics
  pub tasks : List (Text × Task)

pub data TaskError : Type 0 where
  task_not_found task_already_submitted : TaskError

-- The loop of `findTask`; the organization is not looked at.
unfoldable pub find_task : Text → Bool → List (Text × Task) → Option Task
find_task dataset_id filter_active [] = none
find_task dataset_id filter_active ((_, t) ∷ tasks) =
    let rest = find_task dataset_id filter_active tasks in
    ite (text_discrete t.meta.dataset_id dataset_id)
      (if filter_active && not (is_active t) then rest else some t) rest

-- The order of `sort.Slice` in `findAvailableTask`: the task that came last to its state is first.
unfoldable pub sort_insert : Task → List Task → List Task
sort_insert t [] = t ∷ []
sort_insert t (u ∷ us) =
    let rest = sort_insert t us in
    if ltb t.current.started_at u.current.started_at then u ∷ rest else t ∷ u ∷ us

unfoldable pub sort_slice : List Task → List Task
sort_slice [] = []
sort_slice (t ∷ ts) = sort_insert t (sort_slice ts)

-- The tasks that `findAvailableTask` collects.
unfoldable pub available : List (Text × Task) → List Task
available [] = []
available ((_, t) ∷ tasks) =
    let rest = available tasks in if is_pending t.in_state || t.interrupted then t ∷ rest else rest

abbrev pub first_task : List Task → Option Task
first_task [] = none
first_task (t ∷ _) = some t

unfoldable pub find_available_task : Service → Option Task
find_available_task s = first_task (sort_slice (available s.tasks))

-- The task that `NewTask` begins with.
unfoldable pub submitted_task : ℕ → Text → Meta → Task
submitted_task time id meta = record {
  id = id;
  meta = meta;
  in_state = submitted;
  error_msg = [];
  earlier = [];
  current = new_transition submitted time (meta.file_size ∷ []);
  interrupted = false;
  context_canceled = false;
}

-- The test of `NewTask`, under the lock of `findTask`.
unfoldable pub test_task : Service → Task → Option TaskError
test_task s t = elim (find_task t.meta.dataset_id true s.tasks) [
  | some _ ↦ some task_already_submitted
  | none ↦ none
]

-- The entry of `NewTask`, under a lock of its own.
unfoldable pub enter_task : Task → Service → Service
enter_task t s = record s { tasks = put text_discrete t.id t s.tasks }

-- The end of `NewTask` where nothing else runs between the test and the entry.
unfoldable pub store_task : Service → Metrics → Task → Service × Option TaskError
store_task s m t =
    let tested = record s { metrics = m } in
    elim (test_task tested t) [ some e ↦ (tested, some e) | none ↦ (enter_task t tested, none) ]

module _ (duration_string : ℤ → Text) where
  -- `id` is what `xid.New` returns.
  unfoldable pub new_task : (ℕ → ℕ) → Text → Meta → Service → Option (Service × Option TaskError)
  new_task now id meta s =
      elim (next duration_string (λ k. now (suc k)) s.metrics (submitted_task (now 0) id meta)) [
        | none ↦ none
        | some r ↦ some (store_task s r.0 r.1)
      ]

  -- `task.cancel()` behind the first move.
  unfoldable pub cancel : (ℕ → ℕ) → Task → Task
  cancel now t = record (move_state duration_string now canceled t) { context_canceled = true }

  unfoldable pub cancel_task : (ℕ → ℕ) → Text → Service → Option (Service × Option TaskError)
  cancel_task now id s = elim (get text_discrete id s.tasks) [
    | none ↦ some (s, some task_not_found)
    | some t ↦ elim (next duration_string (λ k. now (k + 2)) s.metrics (cancel now t)) [
      | none ↦ none
      | some r ↦ some (record { metrics = r.0; tasks = put text_discrete id r.1 s.tasks }, none)
    ]
  ]
