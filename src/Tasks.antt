-- ===== src/Tasks.antt =====
-- crates/pier-core/src/tasks: the rows of `task_runs` (models.rs), the writes of `start_run`, of the
-- poller and of `cancel_run` (executor.rs). The clock is `now`.
pub mod Steps
pub mod Lifecycle
pub mod Finish
mod Tests
use pier.Base.{
  ℕ, String, Bool, true, false, not, ◌&&◌, ◌||◌, Option, none, some, List, [], ◌∷◌, ◌++◌, ℤ,
  if◌then◌else◌, str_eq, first, keep, update_where, is_some, Result, ok, err, AppError, not_found,
  conflict,
}

pub record TaskRun : Type 0 where
  pub id : String
  pub template_id : Option String
  pub server_id : String
  pub batch_id : Option String
  pub command_snapshot : String
  pub env_json : String
  pub timeout_sec : ℤ
  pub status : String
  pub exit_code : Option ℤ
  pub stdout : String
  pub stderr : String
  pub agent_run_id : Option String
  pub triggered_by : String
  pub error_message : Option String
  pub finished_at : Option ℕ

unfoldable pub is_terminal : String → Bool
is_terminal status =
    str_eq status "success"
    || str_eq status "failed"
    || str_eq status "cancelled"
    || str_eq status "timeout"
    || str_eq status "unreachable"

-- `status IN ('pending','running')`
abbrev pub is_active : String → Bool
is_active status = str_eq status "pending" || str_eq status "running"

-- `COALESCE(a, b)`
abbrev pub coalesce {ℓ} : {A : Type ℓ} → Option A → Option A → Option A
coalesce none b = b
coalesce (some a) b = some a

abbrev pub has_id : String → TaskRun → Bool
has_id id r = str_eq r.id id

-- What `start_run` knows of a run.
pub record StartSpec : Type 0 where
  pub server_id : String
  pub template_id : Option String
  pub command : String
  pub env_json : String
  pub timeout_sec : ℤ
  pub triggered_by : String

-- the inserted row; `id` is the fresh UUID
abbrev pub pending_run : String → StartSpec → TaskRun
pending_run id spec = record {
  id = id;
  template_id = spec.template_id;
  server_id = spec.server_id;
  batch_id = none;
  command_snapshot = spec.command;
  env_json = spec.env_json;
  timeout_sec = spec.timeout_sec;
  status = "pending";
  exit_code = none;
  stdout = "";
  stderr = "";
  agent_run_id = none;
  triggered_by = spec.triggered_by;
  error_message = none;
  finished_at = none;
}

unfoldable pub run_insert_pending : String → StartSpec → List TaskRun → List TaskRun
run_insert_pending id spec runs = runs ++ pending_run id spec ∷ []

-- the `UPDATE` of `start_run` once the agent has answered with its run id
unfoldable pub mark_running : String → String → List TaskRun → List TaskRun
mark_running agent_run_id id runs =
    update_where (has_id id)
      (λ r. record r { agent_run_id = some agent_run_id; status = "running" }) runs

-- What the agent tells of a run.
pub record Snapshot : Type 0 where
  pub run_id : String
  pub status : String
  pub exit_code : Option ℤ
  pub stdout : String
  pub stderr : String
  pub error : Option String
  pub finished_at_unix_ms : Option ℕ

module _ (now : ℕ) where
  abbrev pub finish_with : Option String → Snapshot → TaskRun → TaskRun
  finish_with agent_run_id snap r = record r {
    agent_run_id = coalesce agent_run_id r.agent_run_id;
    status = snap.status;
    exit_code = snap.exit_code;
    stdout = snap.stdout;
    stderr = snap.stderr;
    error_message = snap.error;
    finished_at = coalesce r.finished_at (some now);
  }

  abbrev pub advance_with : Option String → Snapshot → TaskRun → TaskRun
  advance_with agent_run_id snap r = record r {
    agent_run_id = coalesce agent_run_id r.agent_run_id;
    status = if is_terminal r.status then r.status else snap.status;
    stdout = snap.stdout;
    stderr = snap.stderr;
  }

  unfoldable pub run_update_snapshot :
      String → Option String → Snapshot → Bool → List TaskRun → List TaskRun
  run_update_snapshot id agent_run_id snap finished runs =
      if finished
      then update_where (has_id id) (finish_with agent_run_id snap) runs
      else update_where (has_id id) (advance_with agent_run_id snap) runs

  -- The write of the poller, which decides whether the run is finished.
  unfoldable pub poll : String → Snapshot → List TaskRun → List TaskRun
  unfolding run_update_snapshot is_terminal
  poll id snap runs =
      run_update_snapshot id (some snap.run_id) snap
        (is_terminal snap.status || is_some snap.finished_at_unix_ms) runs

  unfoldable pub run_mark_unreachable : String → String → List TaskRun → List TaskRun
  unfolding is_terminal
  run_mark_unreachable id error runs =
      update_where (λ r. has_id id r && not (is_terminal r.status))
        (λ r. record r {
          status = "unreachable";
          error_message = some error;
          finished_at = coalesce r.finished_at (some now);
        })
        runs

  unfoldable pub run_mark_cancelled : String → List TaskRun → List TaskRun
  run_mark_cancelled id runs =
      update_where (λ r. has_id id r && is_active r.status)
        (λ r. record r { status = "cancelled"; finished_at = coalesce r.finished_at (some now) })
        runs

  abbrev pub cancel_found :
      String
      → Option TaskRun
      → List TaskRun
      → Result AppError (String × Option String) × List TaskRun
  cancel_found id none runs = (err (not_found "errors.executor.task_run_not_found"), runs)
  cancel_found id (some run) runs =
      if is_terminal run.status
      then (err (conflict "errors.executor.task_already_status"), runs)
      else (ok (run.server_id, run.agent_run_id), run_mark_cancelled id runs)

  -- `cancel_run` up to the call of the agent, which is made only if its run id is known
  unfoldable pub cancel_run :
      String → List TaskRun → Result AppError (String × Option String) × List TaskRun
  cancel_run id runs = cancel_found id (first (has_id id) runs) runs

unfoldable pub list_active_runs : List TaskRun → List TaskRun
list_active_runs runs = keep (λ r. is_active r.status) runs
