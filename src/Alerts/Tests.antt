-- ===== src/Alerts/Tests.antt =====
-- A rule on a reading above 90, with natural numbers as readings.
use pier.Base.{ℕ, String, true, ◌&&◌, none, some, [], ◌∷◌, ◌≡◌, ◌↔◌, refl, ltb, ◌==◌}
use pier.Alerts.{
  Readings, AlertRule, AlertEvent, Alerts, Tick, compare, evaluate, evaluate_idle, evaluate_firing,
  update_breach_window, send_and_record, process_rule,
}
use pier.Alerts.Window.{run, in_breach, breach_start}
use pier.Alerts.Firing.{held, process_rule_lem}

abbrev numbers : Readings
numbers = record {
  Reading = ℕ;
  greater = λ a b. ltb b a;
  less = λ a b. ltb a b;
  near = λ a b. a == b;
  zero_reading = 0;
}

abbrev rule : AlertRule numbers
rule = record {
  metric = "cpu_percent";
  threshold = some 90;
  comparison = "gt";
  duration_secs = 60;
  cooldown_mins = 30;
  last_triggered_at = none;
  last_value = none;
  last_state = "ok";
  first_breach_at = none;
}

abbrev quiet : Alerts numbers
quiet = record { rule = rule; events = [] }

abbrev at : ℕ → ℕ → Tick numbers
at now value = record { now = now; value = some value; channel = some true }

abbrev event : String → AlertEvent
event state = record { state = state; delivered = true }

-- It fires after a minute, resolves, and fires again within the half hour of its cooldown.
flapping :
    (run numbers (at 1200 99 ∷ at 1140 99 ∷ at 1100 50 ∷ at 1070 95 ∷ at 1000 95 ∷ []) quiet).events
    ≡ event "firing" ∷ event "resolved" ∷ event "firing" ∷ []
unfolding process_rule evaluate evaluate_idle evaluate_firing update_breach_window send_and_record
    compare
flapping = refl

process_rule_lem_example :
    ((run numbers (at 1000 95 ∷ []) quiet).rule.first_breach_at
      ≡ breach_start numbers 90 "gt" (at 1000 95 ∷ []))
    × (((run numbers (at 1070 95 ∷ at 1000 95 ∷ []) quiet).rule.last_state ≡ "firing") ↔ (
        (in_breach numbers 90 "gt" 95
          && held numbers 90 "gt" 60 (breach_start numbers 90 "gt" (at 1000 95 ∷ [])) 1070)
        ≡ true))
unfolding process_rule evaluate evaluate_idle update_breach_window send_and_record compare
process_rule_lem_example =
    process_rule_lem numbers 90 "gt" 60 (at 1000 95 ∷ []) quiet (at 1070 95) 95 true
      (record { metric = refl; known = refl; same_comparison = refl; duration = refl }) refl refl
      refl refl
