-- ===== src/Tasks/Tests.antt =====
-- A run that is started, cancelled and finished.
use pier.Base.{true, not, none, some, [], ◌∷◌, ◌≡◌, refl, pos, first, keep, is_some, All}
use pier.Tasks.{
  TaskRun, StartSpec, Snapshot, is_terminal, has_id, pending_run, run_insert_pending, mark_running,
  poll, cancel_run, list_active_runs,
}
use pier.Tasks.Steps.{insert, Steps, stop, next}
use pier.Tasks.Lifecycle.{IsSound, list_active_runs_lem}
use pier.Tasks.Finish.{cancel_undone}

abbrev spec : StartSpec
spec = record {
  server_id = "node";
  template_id = none;
  command = "uptime";
  env_json = "{}";
  timeout_sec = pos 60;
  triggered_by = "olga";
}

abbrev done : Snapshot
done = record {
  run_id = "a1";
  status = "success";
  exit_code = some (pos 0);
  stdout = "up";
  stderr = "";
  error = none;
  finished_at_unix_ms = none;
}

abbrev run : TaskRun
run = pending_run "r1" spec

abbrev ended : TaskRun
ended = record run { status = "cancelled"; finished_at = some 5 }

list_active_runs_lem_example :
    All IsSound (run ∷ [])
    × (list_active_runs (run ∷ []) ≡ keep (λ r. not (is_terminal r.status)) (run ∷ []))
unfolding run_insert_pending
list_active_runs_lem_example = list_active_runs_lem (run ∷ []) started
  where
    started : Steps [] (run ∷ [])
    started = next (insert [] "r1" spec) (stop (run ∷ []))

cancel_undone_example :
    ((x : TaskRun) × (first (has_id "r1") (mark_running "a1" "r1" (cancel_run 5 "r1" (run ∷ [])).1)
        ≡ some x)
      × (x.status ≡ "running")
      × (is_some x.finished_at ≡ true))
    × ((x : TaskRun) × (first (has_id "r1") (poll 9 "r1" done (cancel_run 5 "r1" (run ∷ [])).1)
          ≡ some x)
        × (x.status ≡ "success"))
cancel_undone_example = cancel_undone 5 9 "r1" "a1" done (run ∷ []) run refl refl refl
