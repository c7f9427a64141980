-- ===== src/Alerts.antt =====
-- crates/pier-core/src/alerts: `compare` and `evaluate` of evaluator.rs and, of mod.rs, what one tick
-- does with a rule. Readings are of an abstract type with its comparisons; times are seconds.
pub mod Window
pub mod Firing
mod Tests
use pier.Base.{
  ℕ, ◌+◌, ◌*◌, String, Bool, true, false, not, ◌&&◌, ◌||◌, Option, none, some, List, [], ◌∷◌, ◌++◌,
  leb, ltb, ◌==◌, if◌then◌else◌, str_eq, is_some, unwrap_or,
}

-- The operations of `f64` that the code uses.
pub record Readings : Type 1 where
  pub Reading : Type 0
  pub greater : Reading → Reading → Bool
  pub less : Reading → Reading → Bool
  -- `(a - b).abs() < f64::EPSILON`
  pub near : Reading → Reading → Bool
  pub zero_reading : Reading

pub data EventKind : Type 0 where
  fire resolve no_change : EventKind

-- `num_minutes` of a duration, which is cut off towards 0, is at least `mins`
abbrev pub minutes_passed : ℕ → ℕ → ℕ → Bool
minutes_passed mins since now =
    if mins == 0 then ltb since (now + 60) else leb (since + mins * 60) now

-- the same for whole seconds
abbrev pub seconds_passed : ℕ → ℕ → ℕ → Bool
seconds_passed secs since now = leb (since + secs) now

-- a row of `alert_events`
pub record AlertEvent : Type 0 where
  pub state : String
  pub delivered : Bool

-- `container_status` and its kin fire through hooks
abbrev pub is_event_metric : String → Bool
is_event_metric metric =
    str_eq metric "container_status"
    || str_eq metric "container_restarts"
    || str_eq metric "deploy_status"
    || str_eq metric "backup_status"

module _ (f : Readings) where
  open f use {Reading, greater, less, near, zero_reading}

  pub record AlertRule : Type 0 where
    pub metric : String
    pub threshold : Option Reading
    pub comparison : String
    pub duration_secs : ℕ
    pub cooldown_mins : ℕ
    pub last_triggered_at : Option ℕ
    pub last_value : Option Reading
    pub last_state : String
    pub first_breach_at : Option ℕ

  unfoldable pub compare : Reading → Reading → String → Bool
  compare value threshold op =
      if str_eq op "gt"
      then greater value threshold
      else if str_eq op "lt"
      then less value threshold
      else if str_eq op "eq"
      then near value threshold
      else false

  -- the arm of a rule that is firing
  unfoldable pub evaluate_firing : AlertRule → Bool → ℕ → EventKind
  evaluate_firing rule breached now =
      if not breached then resolve else elim rule.last_triggered_at [
        | none ↦ no_change
        | some last ↦ if minutes_passed rule.cooldown_mins last now then fire else no_change
      ]

  -- the arm of any other rule
  unfoldable pub evaluate_idle : AlertRule → Bool → ℕ → EventKind
  evaluate_idle rule breached now =
      if not breached
      then no_change
      else if seconds_passed rule.duration_secs (unwrap_or rule.first_breach_at now) now
      then fire
      else no_change

  abbrev pub evaluate_known : AlertRule → Bool → ℕ → EventKind
  evaluate_known rule breached now =
      if str_eq rule.last_state "firing"
      then evaluate_firing rule breached now
      else evaluate_idle rule breached now

  unfoldable pub evaluate : AlertRule → Reading → ℕ → EventKind
  unfolding evaluate_firing evaluate_idle
  evaluate rule value now = elim rule.threshold [
    | none ↦ no_change
    | some threshold ↦ evaluate_known rule (compare value threshold rule.comparison) now
  ]

  -- the column `first_breach_at` after a reading
  abbrev pub breach_window : AlertRule → Bool → ℕ → Option ℕ
  breach_window rule breached now =
      if breached
      then if is_some rule.first_breach_at then rule.first_breach_at else some now
      else if is_some rule.first_breach_at || str_eq rule.last_state "firing"
      then none
      else rule.first_breach_at

  unfoldable pub update_breach_window : AlertRule → Bool → Reading → ℕ → AlertRule
  update_breach_window rule breached value now = record rule {
    first_breach_at = breach_window rule breached now;
    last_value = some value;
  }

  -- The rule's row and the events so far.
  pub record Alerts : Type 0 where
    pub rule : AlertRule
    pub events : List AlertEvent

  abbrev pub after_event : String → ℕ → AlertRule → AlertRule
  after_event label now rule =
      if str_eq label "firing"
      then record rule { last_triggered_at = some now; last_state = "firing" }
      else record rule { last_state = "ok"; first_breach_at = none }

  -- `channel` is whether a message is delivered, if the channel is configured at all
  unfoldable pub send_and_record : String → Option Bool → ℕ → Alerts → Alerts
  send_and_record label none now a = a
  send_and_record label (some delivered) now a = record {
    rule = after_event label now a.rule;
    events = a.events ++ record { state = label; delivered = delivered } ∷ [];
  }

  abbrev pub act_on : EventKind → Option Bool → ℕ → Alerts → Alerts
  act_on fire channel now a = send_and_record "firing" channel now a
  act_on resolve channel now a = send_and_record "resolved" channel now a
  act_on no_change channel now a = a

  -- What a tick meets: the time, the reading, if there is one, and the channel.
  pub record Tick : Type 0 where
    pub now : ℕ
    pub value : Option Reading
    pub channel : Option Bool

  abbrev pub read : Tick → Reading → Alerts → Alerts
  read tick value a =
      let threshold = unwrap_or a.rule.threshold zero_reading in
      let breached = compare value threshold a.rule.comparison in
      let rule = update_breach_window a.rule breached value tick.now in
      act_on (evaluate rule value tick.now) tick.channel tick.now (record a { rule = rule })

  unfoldable pub process_rule : Tick → Alerts → Alerts
  unfolding update_breach_window evaluate send_and_record
  process_rule tick a =
      if is_event_metric a.rule.metric
      then a
      else elim tick.value [ none ↦ a | some value ↦ read tick value a ]
