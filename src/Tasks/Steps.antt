-- ===== src/Tasks/Steps.antt =====
-- Sequences of the writes of crates/pier-core/src/tasks, whoever makes them.
use pier.Base.{ℕ, String, Bool, true, List, ◌≡◌, ◌||◌}
use pier.Tasks.{
  TaskRun, StartSpec, Snapshot, is_terminal, is_active, run_insert_pending, mark_running, poll,
  run_mark_unreachable, cancel_run,
}

-- A status that the code or the agent gives a run.
abbrev pub is_status : String → Bool
is_status status = is_active status || is_terminal status

-- One write.
pub data Step : List TaskRun → List TaskRun → Type 0 where
  insert :
      (runs : List TaskRun) (id : String) (spec : StartSpec)
      → Step runs (run_insert_pending id spec runs)
  running :
      (runs : List TaskRun) (agent_run_id id : String)
      → Step runs (mark_running agent_run_id id runs)
  polled :
      (now : ℕ) (runs : List TaskRun) (id : String) (snap : Snapshot)
      → is_status snap.status ≡ true
      → Step runs (poll now id snap runs)
  unreachable :
      (now : ℕ) (runs : List TaskRun) (id error : String)
      → Step runs (run_mark_unreachable now id error runs)
  cancelled : (now : ℕ) (runs : List TaskRun) (id : String) → Step runs (cancel_run now id runs).1

-- Some writes, one after the other.
pub data Steps : List TaskRun → List TaskRun → Type 0 where
  stop : (runs : List TaskRun) → Steps runs runs
  next : {runs later last : List TaskRun} → Step runs later → Steps later last → Steps runs last
