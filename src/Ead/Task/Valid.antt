-- ===== src/Ead/Task/Valid.antt =====
-- ikuzo/service/x/ead/task.go: the history of a task is a path of the states it may go through.
use hub.Prelude.{
  ℕ, suc, ◌≡◌, refl, Bool, true, false, ◌||◌, ◌&&◌, Option, some, List, [], ◌∷◌, ◌++◌, Text, ℤ,
  arith, ◌∙◌, sym, if◌then◌else◌, Bool-cases, inl, inr, map,
}
use hub.Ead.Task.{
  ProcessingState, submitted, pending, started, processing_description, processing_inventories,
  in_error, canceled, finished, Transition, Metrics, Task, is_pending, find_pending, inc_finished,
  sub_time, finish_transition, finish_state, move_state, stamp, set_processing_duration,
  finish_task, finish_with_error, is_active_state,
}

-- The states that may follow a state.
unfoldable pub may_follow : ProcessingState → ProcessingState → Bool
may_follow submitted pending = true
may_follow pending started = true
may_follow started processing_description = true
may_follow processing_description processing_inventories = true
may_follow processing_inventories finished = true
may_follow finished finished = true
may_follow state in_error = is_active_state state
may_follow state canceled = true
may_follow state _ = false

unfoldable pub is_path : List ProcessingState → Bool
is_path [] = true
is_path (s ∷ []) = true
is_path (s ∷ s' ∷ ss) = may_follow s s' && is_path (s' ∷ ss)

-- The states of a task, in order.
abbrev pub history : Task → List ProcessingState
history t = map (λ tr. tr.state) t.earlier ++ t.current.state ∷ []

abbrev pub passes_pending : List ProcessingState → Bool
passes_pending [] = false
passes_pending (s ∷ ss) = is_pending s || passes_pending ss

-- The states that only a task that was pending is in.
unfoldable pub behind_pending : ProcessingState → Bool
behind_pending submitted = false
behind_pending in_error = false
behind_pending canceled = false
behind_pending _ = true

pub record IsWellFormed (t : Task) : Type 0 where
  pub in_last : t.in_state ≡ t.current.state
  pub path : is_path (history t) ≡ true
  pub was_pending : behind_pending t.in_state ≡ true → passes_pending (history t) ≡ true

is_path-append :
    (ss : List ProcessingState) (s s' : ProcessingState)
    → is_path (ss ++ s ∷ []) ≡ true
    → may_follow s s' ≡ true
    → is_path ((ss ++ s ∷ []) ++ s' ∷ []) ≡ true
unfolding is_path
is_path-append [] s s' h f = ground arith
is_path-append (r ∷ []) s s' h f = ground arith
is_path-append (r ∷ r' ∷ ss) s s' h f = ground (arith, is_path-append (r' ∷ ss) s s')

passes_pending-append :
    (ss rr : List ProcessingState)
    → passes_pending (ss ++ rr) ≡ (passes_pending ss || passes_pending rr)
passes_pending-append [] rr = refl
passes_pending-append (s ∷ ss) rr = ground (arith, passes_pending-append ss rr)

may_error : (s : ProcessingState) → is_active_state s ≡ true → may_follow s in_error ≡ true
unfolding may_follow is_active_state
may_error s h = ground arith

-- Only a task that was pending comes to a state behind that one.
follows-pending :
    (s s' : ProcessingState)
    → may_follow s s' ≡ true
    → behind_pending s' ≡ true
    → (is_pending s' || behind_pending s) ≡ true
unfolding may_follow behind_pending is_active_state
follows-pending s s' f h = ground arith

map-append_one :
    (trs : List Transition) (tr : Transition)
    → map (λ x. x.state) (trs ++ tr ∷ []) ≡ map (λ x. x.state) trs ++ tr.state ∷ []
map-append_one [] tr = refl
map-append_one (x ∷ trs) tr = rw (map-append_one trs tr) refl

module _ (duration_string : ℤ → Text) where
  history-move_state :
      (now : ℕ → ℕ) (s : ProcessingState) (t : Task)
      → history (move_state duration_string now s t) ≡ history t ++ s ∷ []
  unfolding move_state finish_transition
  history-move_state now s t =
      rw (map-append_one t.earlier (finish_transition duration_string (now 0) t.current)) refl

  pub move_state-IsWellFormed :
      (now : ℕ → ℕ) (s : ProcessingState) (t : Task)
      → may_follow t.in_state s ≡ true
      → IsWellFormed t
      → IsWellFormed (move_state duration_string now s t)
  move_state-IsWellFormed now s t f wf = record {
    in_last = unfold move_state in refl;
    path = rw (history-move_state now s t) (
        is_path-append (map (λ x. x.state) t.earlier) t.current.state s wf.path
          (ground (arith, wf.in_last)));
    was_pending = λ h.
        let h' : behind_pending s ≡ true = unfold move_state in h in
        rw (history-move_state now s t) (
          ground (
            arith,
            passes_pending-append (history t) (s ∷ []),
            follows-pending t.in_state s f,
            wf.was_pending,
          ));
  }

  pub finish_state-IsWellFormed :
      (time : ℕ) (t : Task) → IsWellFormed t → IsWellFormed (finish_state duration_string time t)
  unfolding finish_state finish_transition
  finish_state-IsWellFormed time t wf = record {
    in_last = wf.in_last;
    path = wf.path;
    was_pending = wf.was_pending;
  }

  find_pending_of_passes :
      (trs : List Transition)
      → passes_pending (map (λ tr. tr.state) trs) ≡ true
      → (tr : Transition) × (find_pending trs ≡ some tr)
  unfolding find_pending
  find_pending_of_passes [] h = absurd (cc)
  find_pending_of_passes (tr ∷ trs) h = elim (Bool-cases (is_pending tr.state)) [
    | inl y ↦ (tr, rw (y, if◌then◌else◌) refl)
    | inr n ↦
        let (found, e) = find_pending_of_passes trs (ground arith) in
        (found, rw (n, if◌then◌else◌) e)
  ]

  -- What `finishTask` works on: the stamp and the duration leave the history alone.
  timed-IsWellFormed :
      (time : ℕ) (d : ℤ) (t : Task)
      → IsWellFormed t
      → IsWellFormed (set_processing_duration duration_string d (stamp duration_string time t))
  unfolding set_processing_duration stamp
  timed-IsWellFormed time d t wf = record {
    in_last = wf.in_last;
    path = wf.path;
    was_pending = wf.was_pending;
  }

  -- A result of an operation that does not panic, in a state and well formed.
  abbrev pub Reaches : Option (Metrics × Task) → ProcessingState → Type 0
  Reaches o s = (r : Metrics × Task) × (o ≡ some r) × (r.1.in_state ≡ s) × IsWellFormed r.1

  pub finish_task-Reaches :
      (now : ℕ → ℕ) (m : Metrics) (t : Task)
      → may_follow t.in_state finished ≡ true
      → IsWellFormed t
      → Reaches (finish_task duration_string now m t) finished
  unfolding finish_task
  finish_task-Reaches now m t f wf =
      let t1 = stamp duration_string (now 0) t in
      let was : passes_pending (history t) ≡ true =
        wf.was_pending (unfold behind_pending in follows-pending t.in_state finished f refl) in
      let (tr, e) =
        find_pending_of_passes (t1.earlier ++ t1.current ∷ [])
          (rw (map-append_one t1.earlier t1.current) (unfold stamp in was)) in
      let d = sub_time (some (now 0)) tr.finished_at in
      let t2 = set_processing_duration duration_string d t1 in
      let t3 = move_state duration_string (λ k. now (suc k)) finished t2 in
      (
        (inc_finished m, finish_state duration_string (now 3) t3),
        rw (e, finish_task) refl,
        unfold finish_state move_state in refl,
        finish_state-IsWellFormed (now 3) t3 (
            move_state-IsWellFormed (λ k. now (suc k)) finished t2
              (unfold set_processing_duration stamp in f) (timed-IsWellFormed (now 0) d t wf)),
      )

  -- `finishWithError` keeps an active task well formed.
  pub finish_with_error-IsWellFormed :
      (now : ℕ → ℕ) (message : Text) (m : Metrics) (t : Task)
      → is_active_state t.in_state ≡ true
      → IsWellFormed t
      → IsWellFormed (finish_with_error duration_string now message m t).1
  finish_with_error-IsWellFormed now message m t active wf =
      let t1 = finish_state duration_string (now 0) t in
      let t2 = move_state duration_string (λ k. now (suc k)) in_error t1 in
      let kept : may_follow t1.in_state in_error ≡ true =
        unfold finish_state in may_error t.in_state active in
      let wf' =
        move_state-IsWellFormed (λ k. now (suc k)) in_error t1 kept
          (finish_state-IsWellFormed (now 0) t wf) in
      unfold finish_with_error in
      record { in_last = wf'.in_last; path = wf'.path; was_pending = wf'.was_pending }

pub submitted_task-IsWellFormed :
    (t : Task)
    → t.in_state ≡ submitted
    → t.current.state ≡ submitted
    → t.earlier ≡ []
    → IsWellFormed t
unfolding is_path behind_pending
submitted_task-IsWellFormed t e f g = record {
  in_last = e ∙ sym f;
  path = rw (g) refl;
  was_pending = λ h. absurd (ground (arith, e, h));
}
