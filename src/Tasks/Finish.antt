-- ===== src/Tasks/Finish.antt =====
-- The time of a run's end, and what a cancellation is worth, in crates/pier-core/src/tasks.
use pier.Base.{
  ℕ, String, Bool, true, false, not, ◌&&◌, ◌||◌, Option, none, some, List, [], ◌∷◌, ◌++◌, ◌≡◌, inl,
  inr, refl, ap, subst, ◌∙◌, first, update_where, is_some, arith, Bool-cases, if◌then◌else◌,
}
use pier.Tasks.{
  TaskRun, Snapshot, is_terminal, is_active, has_id, coalesce, pending_run, run_insert_pending,
  mark_running, run_update_snapshot, poll, run_mark_unreachable, run_mark_cancelled, cancel_run,
  cancel_found, finish_with, advance_with,
}
use pier.Tasks.Lifecycle.{is_some-coalesce}
use pier.Tasks.Steps.{Step, insert, running, polled, unreachable, cancelled, Steps, stop, next}

-- The run of an id has ended at the time `f`.
abbrev pub IsEndedAt : String → ℕ → List TaskRun → Type 0
IsEndedAt id f runs = (r : TaskRun) × (first (has_id id) runs ≡ some r) × (r.finished_at ≡ some f)

first-update_where :
    (id : String) (p : TaskRun → Bool) (g : TaskRun → TaskRun) (runs : List TaskRun) (r : TaskRun)
    → ((x : TaskRun) → (g x).id ≡ x.id)
    → first (has_id id) runs ≡ some r
    → first (has_id id) (update_where p g runs) ≡ some (if p r then g r else r)
first-update_where id p g [] r k e = cc
first-update_where id p g (x ∷ runs) r k e =
    ground (arith, k x, first-update_where id p g runs r k, e)

first-snoc :
    (id : String) (runs : List TaskRun) (x r : TaskRun)
    → first (has_id id) runs ≡ some r
    → first (has_id id) (runs ++ x ∷ []) ≡ some r
first-snoc id [] x r e = cc
first-snoc id (y ∷ runs) x r e = ground (arith, first-snoc id runs x r, e)

IsEndedAt-update_where :
    (id : String) (f : ℕ) (p : TaskRun → Bool) (g : TaskRun → TaskRun) (runs : List TaskRun)
    → ((x : TaskRun) → (g x).id ≡ x.id)
    → ((x : TaskRun) → x.finished_at ≡ some f → (g x).finished_at ≡ some f)
    → IsEndedAt id f runs
    → IsEndedAt id f (update_where p g runs)
IsEndedAt-update_where id f p g runs k t (r, e, h) =
    (if p r then g r else r, first-update_where id p g runs r k e, ground (arith, t r h, h))

coalesced : (o : Option ℕ) (now f : ℕ) → o ≡ some f → coalesce o (some now) ≡ some f
coalesced o now f h = rw h refl

snapshot-IsEndedAt :
    (now : ℕ) (snap : Snapshot) (id : String) (finished : Bool) (agent_run_id : Option String)
    (runs : List TaskRun) (who : String) (f : ℕ)
    → IsEndedAt who f runs
    → IsEndedAt who f (run_update_snapshot now id agent_run_id snap finished runs)
unfolding run_update_snapshot
snapshot-IsEndedAt now snap id true agent_run_id runs who f a =
    IsEndedAt-update_where who f (has_id id) (finish_with now agent_run_id snap) runs (λ x. refl)
      (λ x h. coalesced x.finished_at now f h) a
snapshot-IsEndedAt now snap id false agent_run_id runs who f a =
    IsEndedAt-update_where who f (has_id id) (advance_with now agent_run_id snap) runs (λ x. refl)
      (λ x h. h) a

cancel-IsEndedAt :
    (now : ℕ) (id : String) (found : Option TaskRun) (runs : List TaskRun) (who : String) (f : ℕ)
    → IsEndedAt who f runs
    → IsEndedAt who f (cancel_found now id found runs).1
unfolding run_mark_cancelled
cancel-IsEndedAt now id none runs who f a = a
cancel-IsEndedAt now id (some run) runs who f a = elim (Bool-cases (is_terminal run.status)) [
  | inl e ↦ rw e a
  | inr e ↦ rw e (
      IsEndedAt-update_where who f (λ r. has_id id r && is_active r.status) _ runs (λ x. refl)
        (λ x h. coalesced x.finished_at now f h) a)
]

Step-IsEndedAt :
    (who : String) (f : ℕ) (runs later : List TaskRun)
    → Step runs later
    → IsEndedAt who f runs
    → IsEndedAt who f later
unfolding run_insert_pending mark_running poll run_mark_unreachable cancel_run
Step-IsEndedAt who f runs later (insert _ id spec) (r, e, h) =
    (r, first-snoc who runs (pending_run id spec) r e, h)
Step-IsEndedAt who f runs later (running _ agent_run_id id) a =
    IsEndedAt-update_where who f (has_id id) _ runs (λ x. refl) (λ x h. h) a
Step-IsEndedAt who f runs later (polled now _ id snap known) a =
    snapshot-IsEndedAt now snap id (is_terminal snap.status || is_some snap.finished_at_unix_ms)
      (some snap.run_id) runs who f a
Step-IsEndedAt who f runs later (unreachable now _ id error) a =
    IsEndedAt-update_where who f (λ r. has_id id r && not (is_terminal r.status)) _ runs (λ x. refl)
      (λ x h. coalesced x.finished_at now f h) a
Step-IsEndedAt who f runs later (cancelled now _ id) a =
    cancel-IsEndedAt now id (first (has_id id) runs) runs who f a

-- If the agents only tell the seven known statuses: the time at which a run has ended, once it is written,
-- stays through every later sequence of writes, in any order and of any runs.
pub finished_at_stays :
    (who : String) (f : ℕ) (runs last : List TaskRun)
    → IsEndedAt who f runs
    → Steps runs last
    → IsEndedAt who f last
finished_at_stays who f runs last a (stop _) = a
finished_at_stays who f runs last a (next {later = later} s t) =
    finished_at_stays who f later last (Step-IsEndedAt who f runs later s a) t

first-passes :
    (p : TaskRun → Bool) (runs : List TaskRun) (r : TaskRun) → first p runs ≡ some r → p r ≡ true
first-passes p [] r e = cc
first-passes p (x ∷ runs) r e = elim (Bool-cases (p x)) [
  | inl h ↦ let same : x ≡ r = ground (arith, h, e) in subst (λ y. p y ≡ true) same h
  | inr h ↦ first-passes p runs r (ground (arith, h, e))
]

-- A write to a run changes the run that is found by its id.
first-written :
    (id : String) (g : TaskRun → TaskRun) (runs : List TaskRun) (r : TaskRun)
    → ((x : TaskRun) → (g x).id ≡ x.id)
    → first (has_id id) runs ≡ some r
    → first (has_id id) (update_where (has_id id) g runs) ≡ some (g r)
first-written id g runs r k e =
    first-update_where id (has_id id) g runs r k e
    ∙ ap (λ b. some (if b then g r else r)) (first-passes (has_id id) runs r e)

abbrev cancelled_run : ℕ → TaskRun → TaskRun
cancelled_run now r = record r {
  status = "cancelled";
  finished_at = coalesce r.finished_at (some now);
}

first-cancel_run :
    (now : ℕ) (id : String) (runs : List TaskRun) (r : TaskRun)
    → first (has_id id) runs ≡ some r
    → r.status ≡ "pending"
    → first (has_id id) (cancel_run now id runs).1 ≡ some (cancelled_run now r)
unfolding cancel_run run_mark_cancelled is_terminal
first-cancel_run now id runs r found pending =
    let p : TaskRun → Bool = λ x. has_id id x && is_active x.status in
    let passes : p r ≡ true =
      ground (arith, first-passes (has_id id) runs r found, ap is_active pending) in
    let going : is_terminal r.status ≡ false = ap is_terminal pending in
    let going_on : first (has_id id) (cancel_found now id (some r) runs).1
        ≡ first (has_id id) (update_where p (cancelled_run now) runs) =
      rw going refl in
    ap (λ o. first (has_id id) (cancel_found now id o runs).1) found
    ∙ going_on
    ∙ first-update_where id p (cancelled_run now) runs r (λ x. refl) found
    ∙ ap (λ b. some (if b then cancelled_run now r else r)) passes

-- A run that was cancelled while it was pending is running again once the answer of the agent to its start
-- is written, although it has a time of its end; and it has succeeded once the poller has read a
-- snapshot of the agent that says so.
pub cancel_undone :
    (now later : ℕ) (id agent_run_id : String) (snap : Snapshot) (runs : List TaskRun) (r : TaskRun)
    → first (has_id id) runs ≡ some r
    → r.status ≡ "pending"
    → snap.status ≡ "success"
    → ((x : TaskRun) × (first (has_id id) (mark_running agent_run_id id (cancel_run now id runs).1)
          ≡ some x)
        × (x.status ≡ "running")
        × (is_some x.finished_at ≡ true))
      × ((x : TaskRun) × (first (has_id id) (poll later id snap (cancel_run now id runs).1)
            ≡ some x)
          × (x.status ≡ "success"))
unfolding mark_running poll run_update_snapshot is_terminal
cancel_undone now later id agent_run_id snap runs r found pending success =
    let c = cancelled_run now r in
    let first_c = first-cancel_run now id runs r found pending in
    let after = (cancel_run now id runs).1 in
    let ended : is_terminal snap.status ≡ true = ap is_terminal success in
    (
      (
        record c { agent_run_id = some agent_run_id; status = "running" },
        first-written id (λ x. record x { agent_run_id = some agent_run_id; status = "running" })
            after c (λ x. refl) first_c,
        refl,
        is_some-coalesce r.finished_at now,
      ),
      (
        finish_with later (some snap.run_id) snap c,
        ap
              (λ b. first (has_id id) (
                run_update_snapshot later id (some snap.run_id) snap
                  (b || is_some snap.finished_at_unix_ms) after))
              ended
            ∙ first-written id (finish_with later (some snap.run_id) snap) after c (λ x. refl)
                first_c,
        success,
      ),
    )
