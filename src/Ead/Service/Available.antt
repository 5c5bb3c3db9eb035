-- ===== src/Ead/Service/Available.antt =====
-- ikuzo/service/x/ead/service.go: which task a worker takes.
use hub.Prelude.{
  ℕ, ◌≡◌, ◌≤◌, Bool, true, ◌||◌, some, List, [], ◌∷◌, Text, ltb, if◌then◌else◌, arith, All,
  Bool-cases, inl, inr, subst, if-intro,
}
use hub.Ead.Task.{Task, is_pending}
use hub.Ead.Service.{Service, sort_insert, sort_slice, available, first_task, find_available_task}

-- Every task came to its state no later than at the time.
abbrev AllBefore : ℕ → List Task → Type 0
AllBefore n ts = All (λ u. u.current.started_at ≤ n) ts

sort_insert-AllBefore :
    (n : ℕ) (t : Task) (ts : List Task)
    → t.current.started_at ≤ n
    → AllBefore n ts
    → AllBefore n (sort_insert t ts)
unfolding sort_insert
sort_insert-AllBefore n t [] h hs = (h, tt)
sort_insert-AllBefore n t (u ∷ us) h hs = ground (arith, sort_insert-AllBefore n t us, hs)

AllBefore-sort_insert :
    (n : ℕ) (t : Task) (ts : List Task) → AllBefore n (sort_insert t ts) → AllBefore n (t ∷ ts)
unfolding sort_insert
AllBefore-sort_insert n t [] h = h
AllBefore-sort_insert n t (u ∷ us) h = ground (arith, AllBefore-sort_insert n t us, h)

AllBefore-sort_slice : (n : ℕ) (ts : List Task) → AllBefore n (sort_slice ts) → AllBefore n ts
unfolding sort_slice
AllBefore-sort_slice n [] h = tt
AllBefore-sort_slice n (t ∷ ts) h =
    let (first, rest) = AllBefore-sort_insert n t (sort_slice ts) h in
    (first, AllBefore-sort_slice n ts rest)

AllBefore-mono : (n k : ℕ) (ts : List Task) → n ≤ k → AllBefore n ts → AllBefore k ts
AllBefore-mono n k [] le h = tt
AllBefore-mono n k (t ∷ ts) le h = (omega (arith, h.0, le), AllBefore-mono n k ts le h.1)

-- The head of a sorted list is the latest.
abbrev Leads : List Task → Type 0
Leads [] = Unit
Leads (t ∷ ts) = AllBefore t.current.started_at ts

sort_insert-Leads : (t : Task) (ts : List Task) → Leads ts → Leads (sort_insert t ts)
unfolding sort_insert
sort_insert-Leads t [] h = tt
sort_insert-Leads t (u ∷ us) h =
    if-intro Leads (ltb t.current.started_at u.current.started_at) (u ∷ sort_insert t us)
      (t ∷ u ∷ us) (λ lt. sort_insert-AllBefore u.current.started_at t us (ground arith) h)
      (λ ge.
        let le : u.current.started_at ≤ t.current.started_at = ground arith in
        (le, AllBefore-mono u.current.started_at t.current.started_at us le h))

sort_slice-Leads : (ts : List Task) → Leads (sort_slice ts)
unfolding sort_slice
sort_slice-Leads [] = tt
sort_slice-Leads (t ∷ ts) = sort_insert-Leads t (sort_slice ts) (sort_slice-Leads ts)

-- A worker may take the task.
abbrev pub is_available : Task → Bool
is_available t = is_pending t.in_state || t.interrupted

abbrev AllAvailable : List Task → Type 0
AllAvailable ts = All (λ t. is_available t ≡ true) ts

sort_insert-AllAvailable :
    (t : Task) (ts : List Task)
    → is_available t ≡ true
    → AllAvailable ts
    → AllAvailable (sort_insert t ts)
unfolding sort_insert
sort_insert-AllAvailable t [] h hs = (h, tt)
sort_insert-AllAvailable t (u ∷ us) h hs = ground (arith, sort_insert-AllAvailable t us, hs)

sort_slice-AllAvailable : (ts : List Task) → AllAvailable ts → AllAvailable (sort_slice ts)
unfolding sort_slice
sort_slice-AllAvailable [] h = tt
sort_slice-AllAvailable (t ∷ ts) h =
    sort_insert-AllAvailable t (sort_slice ts) h.0 (sort_slice-AllAvailable ts h.1)

available-AllAvailable : (tasks : List (Text × Task)) → AllAvailable (available tasks)
unfolding available
available-AllAvailable [] = tt
available-AllAvailable ((i, t) ∷ tasks) =
    ground
      (arith, available-AllAvailable tasks, Bool-cases (is_pending t.in_state || t.interrupted))

-- No available task of the map came to its state behind the given time.
pub AllAvailableBefore : ℕ → List (Text × Task) → Type 0
AllAvailableBefore n tasks = All (λ e. is_available e.1 ≡ true → e.1.current.started_at ≤ n) tasks

available-AllBefore :
    (n : ℕ) (tasks : List (Text × Task))
    → AllBefore n (available tasks)
    → AllAvailableBefore n tasks
unfolding available AllAvailableBefore
available-AllBefore n [] h = tt
available-AllBefore n ((i, t) ∷ tasks) h = elim (Bool-cases (is_available t)) [
  | inl y ↦
      let (now, later) : AllBefore n (t ∷ available tasks) = rw (y, if◌then◌else◌) at h in
      (λ _. now, available-AllBefore n tasks later)
  | inr not_so ↦
      let later : AllBefore n (available tasks) = rw (not_so, if◌then◌else◌) at h in
      (λ y. absurd (cc), available-AllBefore n tasks later)
]

first_task-Leads :
    (ts : List Task) (t : Task)
    → Leads ts
    → AllAvailable ts
    → first_task ts ≡ some t
    → (is_available t ≡ true) × AllBefore t.current.started_at ts
first_task-Leads [] t h a e = absurd (cc)
first_task-Leads (u ∷ us) t h a e =
    let same : u ≡ t = ground (arith, e) in
    subst (λ x. (is_available x ≡ true) × AllBefore x.current.started_at (u ∷ us)) same
      (a.0, (omega arith, h))

-- A worker takes a task that is pending or interrupted, and of these one that came last to its
-- state.
pub find_available_task_lem :
    (s : Service) (t : Task)
    → find_available_task s ≡ some t
    → (is_available t ≡ true) × AllAvailableBefore t.current.started_at s.tasks
unfolding find_available_task
find_available_task_lem s t e =
    let ts = available s.tasks in
    let (a, before) =
      first_task-Leads (sort_slice ts) t (sort_slice-Leads ts)
        (sort_slice-AllAvailable ts (available-AllAvailable s.tasks)) e in
    (
      a,
      available-AllBefore t.current.started_at s.tasks
          (AllBefore-sort_slice t.current.started_at ts before),
    )
