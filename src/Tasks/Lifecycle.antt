-- ===== src/Tasks/Lifecycle.antt =====
-- What every sequence of writes of crates/pier-core/src/tasks keeps, and what a cancellation does not.
use pier.Base.{
  ℕ, String, Bool, true, false, not, ◌&&◌, ◌||◌, Option, none, some, List, [], ◌∷◌, ◌++◌, ◌≡◌, inl,
  inr, refl, sym, subst, str_eq, eq_iff, first, keep, update_where, is_some, All, arith, Bool-cases,
}
use pier.Tasks.{
  TaskRun, Snapshot, is_terminal, is_active, has_id, coalesce, pending_run, run_insert_pending,
  mark_running, run_update_snapshot, poll, run_mark_unreachable, run_mark_cancelled, cancel_run,
  cancel_found, list_active_runs, finish_with, advance_with,
}
use pier.Tasks.Steps.{
  Step, insert, running, polled, unreachable, cancelled, Steps, stop, next, is_status,
}

-- The status is one of the seven, and a terminal run has a time of its end.
abbrev pub IsSound : TaskRun → Type 0
IsSound r =
    (is_status r.status ≡ true) × (is_terminal r.status ≡ true → is_some r.finished_at ≡ true)

module _ {P : TaskRun → Type 0} where
  All-update_where :
      (p : TaskRun → Bool) (f : TaskRun → TaskRun) (runs : List TaskRun)
      → ((r : TaskRun) → P r → P (f r))
      → All P runs
      → All P (update_where p f runs)
  All-update_where p f [] k a = tt
  All-update_where p f (r ∷ runs) k (h, a) = elim (Bool-cases (p r)) [
    | inl e ↦ rw e (k r h, All-update_where p f runs k a)
    | inr e ↦ rw e (h, All-update_where p f runs k a)
  ]

All-snoc :
    (runs : List TaskRun) (r : TaskRun)
    → All IsSound runs
    → IsSound r
    → All IsSound (runs ++ r ∷ [])
All-snoc [] r a h = (h, tt)
All-snoc (x ∷ runs) r (k, a) h = (k, All-snoc runs r a h)

pub is_some-coalesce : (o : Option ℕ) (now : ℕ) → is_some (coalesce o (some now)) ≡ true
is_some-coalesce none now = refl
is_some-coalesce (some t) now = refl

snapshot-IsSound :
    (now : ℕ) (snap : Snapshot) (id : String) (finished : Bool) (agent_run_id : Option String)
    (runs : List TaskRun)
    → is_status snap.status ≡ true
    → (finished ≡ false → is_terminal snap.status ≡ false)
    → All IsSound runs
    → All IsSound (run_update_snapshot now id agent_run_id snap finished runs)
unfolding run_update_snapshot
snapshot-IsSound now snap id true agent_run_id runs known going a =
    All-update_where (has_id id) (finish_with now agent_run_id snap) runs
      (λ r h. (known, λ _. is_some-coalesce r.finished_at now)) a
snapshot-IsSound now snap id false agent_run_id runs known going a =
    All-update_where (has_id id) (advance_with now agent_run_id snap) runs
      (λ r h. (ground (arith, h.0, known), λ t. ground (arith, h.1, t, going refl))) a

cancel-IsSound :
    (now : ℕ) (id : String) (found : Option TaskRun) (runs : List TaskRun)
    → All IsSound runs
    → All IsSound (cancel_found now id found runs).1
unfolding run_mark_cancelled is_terminal
cancel-IsSound now id none runs a = a
cancel-IsSound now id (some run) runs a = elim (Bool-cases (is_terminal run.status)) [
  | inl e ↦ rw e a
  | inr e ↦ rw e (
      All-update_where (λ r. has_id id r && is_active r.status) _ runs
        (λ r h. (refl, λ _. is_some-coalesce r.finished_at now)) a)
]

Step-IsSound : (runs later : List TaskRun) → Step runs later → All IsSound runs → All IsSound later
unfolding run_insert_pending mark_running poll run_mark_unreachable cancel_run is_terminal
Step-IsSound runs later (insert _ id spec) a = All-snoc runs (pending_run id spec) a (refl, λ e. cc)
Step-IsSound runs later (running _ agent_run_id id) a =
    All-update_where (has_id id) _ runs (λ r h. (refl, λ e. cc)) a
Step-IsSound runs later (polled now _ id snap known) a =
    snapshot-IsSound now snap id (is_terminal snap.status || is_some snap.finished_at_unix_ms)
      (some snap.run_id) runs known (λ e. ground (arith, e)) a
Step-IsSound runs later (unreachable now _ id error) a =
    All-update_where (λ r. has_id id r && not (is_terminal r.status)) _ runs
      (λ r h. (refl, λ _. is_some-coalesce r.finished_at now)) a
Step-IsSound runs later (cancelled now _ id) a =
    cancel-IsSound now id (first (has_id id) runs) runs a

Steps-IsSound : (runs last : List TaskRun) → Steps runs last → All IsSound runs → All IsSound last
Steps-IsSound runs last (stop _) a = a
Steps-IsSound runs last (next {later = later} s t) a =
    Steps-IsSound later last t (Step-IsSound runs later s a)

active-not-terminal : (s : String) → is_active s ≡ true → is_terminal s ≡ false
unfolding is_terminal
active-not-terminal s h = elim (Bool-cases (str_eq s "pending")) [
  | inl e ↦ subst (λ x. is_terminal x ≡ false) (sym ((eq_iff s "pending").0 e)) refl
  | inr e ↦
      subst (λ x. is_terminal x ≡ false) (sym ((eq_iff s "running").0 (ground (arith, h, e)))) refl
]

active_sound :
    (runs : List TaskRun)
    → All IsSound runs
    → list_active_runs runs ≡ keep (λ r. not (is_terminal r.status)) runs
unfolding list_active_runs
active_sound [] a = refl
active_sound (r ∷ runs) ((known, _), a) =
    ground (arith, active_sound runs a, active-not-terminal r.status, known)

-- If the agents only tell the seven known statuses, then after any sequence of writes, in any order and of
-- any runs, from an empty table: a terminal run has a time of its end, and the runs that are resumed at
-- the next start are exactly those that are not terminal.
pub list_active_runs_lem :
    (runs : List TaskRun)
    → Steps [] runs
    → All IsSound runs × (list_active_runs runs ≡ keep (λ r. not (is_terminal r.status)) runs)
list_active_runs_lem runs s = let a = Steps-IsSound [] runs s tt in (a, active_sound runs a)
