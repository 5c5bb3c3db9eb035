-- ===== src/Ead/Service/Laws.antt =====
-- ikuzo/service/x/ead/service.go: which task is found.
use hub.Prelude.{
  ℕ, suc, ◌+◌, ◌%◌, ◌++◌, sub_ℕ, ◌≡◌, refl, Bool, true, false, ◌||◌, Option, none, some, List, [],
  ◌∷◌, Text, ℤ, text_discrete, get, put, get-put, ite, if◌then◌else◌, arith, Option-cases, inl, inr,
  Bool-cases, subst, sym, ◌∙◌, if-intro,
}
use hub.Ead.Task.{
  increment, canceled, Transition, finish_transition, pending, Meta, Task, is_active,
  is_active_state, move_state, next, next_from, inc_canceled, finish_state,
}
use hub.Ead.Service.{
  Service, TaskError, task_already_submitted, task_not_found, find_task, submitted_task, test_task,
  enter_task, store_task, new_task, cancel, cancel_task,
}

-- Some task with the data set is active.
pub any_active : Text → List (Text × Task) → Bool
any_active dataset_id [] = false
any_active dataset_id ((_, t) ∷ tasks) =
    ite (text_discrete t.meta.dataset_id dataset_id) (is_active t) false
    || any_active dataset_id tasks

find_task-none :
    (d : Text) (tasks : List (Text × Task))
    → any_active d tasks ≡ false
    → find_task d true tasks ≡ none
unfolding find_task any_active
find_task-none d [] h = refl
find_task-none d ((i, t) ∷ tasks) h = ground (arith, find_task-none d tasks)

find_task-some :
    (d : Text) (tasks : List (Text × Task))
    → any_active d tasks ≡ true
    → (t : Task) × (find_task d true tasks ≡ some t)
      × (is_active t ≡ true)
      × (t.meta.dataset_id ≡ d)
unfolding find_task any_active
find_task-some d [] h = absurd (cc)
find_task-some d ((i, t) ∷ tasks) h = elim (text_discrete t.meta.dataset_id d) [
  | yes p ↦ elim (Bool-cases (is_active t)) [
    | inl y ↦ (t, ground (arith), y, p)
    | inr n ↦
        let (u, e, a, q) = find_task-some d tasks (ground arith) in (u, ground (arith, e), a, q)
  ]
  | no p ↦ let (u, e, a, q) = find_task-some d tasks (ground arith) in (u, ground (arith, e), a, q)
]

-- No data set has two active tasks.
unfoldable pub IsExclusive : List (Text × Task) → Type 0
IsExclusive tasks =
    (i j : Text) (t u : Task)
    → get text_discrete i tasks ≡ some t
    → get text_discrete j tasks ≡ some u
    → is_active t ≡ true
    → is_active u ≡ true
    → t.meta.dataset_id ≡ u.meta.dataset_id
    → i ≡ j

-- No active task of the map has the data set, by the lookups.
any_active-get :
    (d i : Text) (t : Task) (tasks : List (Text × Task))
    → any_active d tasks ≡ false
    → get text_discrete i tasks ≡ some t
    → t.meta.dataset_id ≡ d
    → is_active t ≡ false
unfolding any_active get
any_active-get d i t [] h e q = absurd (cc)
any_active-get d i t ((k, u) ∷ tasks) h e q = ground (arith, any_active-get d i t tasks)

-- A task may be put where it leaves its data set to no other active one.
put-IsExclusive :
    (k : Text) (t : Task) (tasks : List (Text × Task))
    → ((i : Text) (u : Task)
        → get text_discrete i tasks ≡ some u
        → is_active u ≡ true
        → is_active t ≡ true
        → u.meta.dataset_id ≡ t.meta.dataset_id
        → i ≡ k)
    → IsExclusive tasks
    → IsExclusive (put text_discrete k t tasks)
unfolding IsExclusive
put-IsExclusive k t tasks f ex i j u v ei ej au av q = ground (
  arith,
  get-put text_discrete i k t tasks,
  get-put text_discrete j k t tasks,
  f i u,
  f j v,
  ex i j u v,
)

module _ (duration_string : ℤ → Text) (now : ℕ → ℕ) where
  -- The task that a successful `NewTask` stores.
  abbrev pub pending_task : Text → Meta → Task
  pending_task id meta =
      move_state duration_string (λ k. now (suc k)) pending (submitted_task (now 0) id meta)

  -- `NewTask`, where nothing runs between its test and its entry, refuses a data set that has an active
  -- task and changes nothing then; otherwise it stores a pending task for it.
  pub new_task_lem :
      (id : Text) (meta : Meta) (s : Service)
      → new_task duration_string now id meta s
        ≡ some (
            if any_active meta.dataset_id s.tasks
            then (s, some task_already_submitted)
            else (record s { tasks = put text_discrete id (pending_task id meta) s.tasks }, none))
  unfolding new_task next next_from store_task test_task enter_task submitted_task move_state
  new_task_lem id meta s = elim (Bool-cases (any_active meta.dataset_id s.tasks)) [
    | inl y ↦ let (t, e, _, _) = find_task-some meta.dataset_id s.tasks y in ground (arith, e, y)
    | inr not_so ↦ ground (arith, find_task-none meta.dataset_id s.tasks not_so, not_so)
  ]

  -- `NewTask`, where nothing runs between its test and its entry, gives no data set a second active task.
  pub new_task-IsExclusive :
      (id : Text) (meta : Meta) (s : Service) (r : Service × Option TaskError)
      → IsExclusive s.tasks
      → new_task duration_string now id meta s ≡ some r
      → IsExclusive r.0.tasks
  new_task-IsExclusive id meta s r ex e =
      let result : Service × Option TaskError =
        if any_active meta.dataset_id s.tasks
        then (s, some task_already_submitted)
        else (record s { tasks = put text_discrete id (pending_task id meta) s.tasks }, none) in
      let same : result ≡ r = ground (arith, new_task_lem id meta s, e) in
      let kept : meta.dataset_id ≡ (pending_task id meta).meta.dataset_id =
        unfold move_state submitted_task in refl in
      subst (λ x. IsExclusive x.0.tasks) same
        (if-intro (λ (x : Service × Option TaskError). IsExclusive x.0.tasks)
          (any_active meta.dataset_id s.tasks) (s, some task_already_submitted)
          (record s { tasks = put text_discrete id (pending_task id meta) s.tasks }, none) (λ _. ex)
          (λ free.
            put-IsExclusive id (pending_task id meta) s.tasks
              (λ i u ei au ap q. absurd (
                ground
                  (arith, any_active-get meta.dataset_id i u s.tasks free ei (q ∙ sym kept), au)))
              ex))

  cancel_task-result :
      (id : Text) (s : Service)
      → cancel_task duration_string now id s ≡ elim (get text_discrete id s.tasks) [
        | none ↦ some (s, some task_not_found)
        | some t ↦ some (
          record {
            metrics = inc_canceled s.metrics;
            tasks =
                put text_discrete id
                  (finish_state duration_string (now 2) (cancel duration_string now t))
                  s.tasks;
          },
          none,
        )
      ]
  unfolding cancel_task next next_from cancel move_state
  cancel_task-result id s = ground arith

  -- A transition that began at the time is closed at the later one.
  abbrev pub IsClosed : ℕ → ℕ → Transition → Type 0
  IsClosed began ended tr =
      (tr.started_at ≡ began)
      × (tr.finished_at ≡ some ended)
      × (tr.duration ≡ sub_ℕ ended began)
      × (tr.duration_fmt ≡ duration_string (sub_ℕ ended began))

  -- A task that has been canceled: its transition so far is closed and stays in the history, and a closed
  -- one to the canceled state stands behind it.
  abbrev pub IsCanceled : Task → Task → Type 0
  IsCanceled t u =
      (u.in_state ≡ canceled)
      × (is_active u ≡ false)
      × (u.context_canceled ≡ true)
      × (u.id ≡ t.id)
      × (u.meta ≡ t.meta)
      × ((last : Transition) × (u.earlier ≡ t.earlier ++ last ∷ [])
          × (last.state ≡ t.current.state)
          × IsClosed t.current.started_at (now 0) last)
      × (u.current.state ≡ canceled)
      × IsClosed (now 1) (now 2) u.current

  -- What `CancelTask` comes to, from what the lookup finds and for the lookup of any identifier.
  abbrev pub CancelEnds :
      Text → Text → Service → Option Task → Option (Service × Option TaskError) → Type 0
  CancelEnds id i s none r = r ≡ some (s, some task_not_found)
  CancelEnds id i s (some t) r =
      (s' : Service) × (u : Task) × (r ≡ some (s', none))
      × IsCanceled t u
      × (get text_discrete i s'.tasks
          ≡ ite (text_discrete id i) (some u) (get text_discrete i s.tasks))
      × (s'.metrics ≡ record s.metrics {
        canceled_count = (s.metrics.canceled_count + 1) % 18446744073709551616;
      })

  finish_state-IsCanceled :
      (t : Task)
      → IsCanceled t (finish_state duration_string (now 2) (cancel duration_string now t))
  unfolding cancel move_state finish_state finish_transition is_active is_active_state
  finish_state-IsCanceled t = (
    refl,
    refl,
    refl,
    refl,
    refl,
    (finish_transition duration_string (now 0) t.current, refl, refl, (refl, refl, refl, refl)),
    refl,
    (refl, refl, refl, refl),
  )

  -- `CancelTask` refuses an unknown task and changes nothing then. Any other task, also one that has
  -- ended, is canceled: it is no longer active, its context is canceled, its last transition is closed and
  -- a closed one to the canceled state stands behind it, each with the difference of its times. The task
  -- is counted as canceled, and every other task is as before.
  pub cancel_task_lem :
      (id i : Text) (s : Service)
      → CancelEnds id i s (get text_discrete id s.tasks) (cancel_task duration_string now id s)
  unfolding inc_canceled increment
  cancel_task_lem id i s = elim (Option-cases (get text_discrete id s.tasks)) [
    | inl missing ↦ rw (cancel_task-result id s, missing) refl
    | inr found ↦
        let u = finish_state duration_string (now 2) (cancel duration_string now found.0) in
        rw (cancel_task-result id s, found.1)
          (
            record { metrics = inc_canceled s.metrics; tasks = put text_discrete id u s.tasks },
            u,
            refl,
            finish_state-IsCanceled found.0,
            ground (arith, get-put text_discrete i id u s.tasks),
            refl,
          )
  ]

  -- `CancelTask` gives no data set a second active task.
  cancel_task-IsExclusive :
      (id : Text) (s : Service) (r : Service × Option TaskError)
      → IsExclusive s.tasks
      → cancel_task duration_string now id s ≡ some r
      → IsExclusive r.0.tasks
  cancel_task-IsExclusive id s r ex e = elim (Option-cases (get text_discrete id s.tasks)) [
    | inl missing ↦
        let same : s ≡ r.0 = ground (arith, cancel_task-result id s, missing, e) in
        subst (λ x. IsExclusive x.tasks) same ex
    | inr found ↦
        let t' = finish_state duration_string (now 2) (cancel duration_string now found.0) in
        let same : put text_discrete id t' s.tasks ≡ r.0.tasks =
          ground (arith, cancel_task-result id s, found.1, e) in
        let over : is_active t' ≡ false =
          unfold is_active is_active_state finish_state cancel move_state in refl in
        subst IsExclusive same
          (put-IsExclusive id t' s.tasks (λ i u ei au ap q. absurd (ground (arith, over, ap))) ex)
  ]
