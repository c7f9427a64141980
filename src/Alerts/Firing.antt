-- ===== src/Alerts/Firing.antt =====
-- When a rule of crates/pier-core/src/alerts fires.
use pier.Base.{
  ℕ, String, Bool, true, false, ◌&&◌, Option, none, some, List, ◌∷◌, ◌≡◌, ◌↔◌, refl, sym, ap, subst,
  ◌∙◌, if◌then◌else◌, str_eq, unwrap_or, arith, eq_iff,
}
use pier.Alerts.{
  Readings, EventKind, fire, no_change, seconds_passed, AlertRule, compare, evaluate_idle,
  evaluate_known, evaluate, update_breach_window, Alerts, send_and_record, act_on, Tick,
  process_rule,
}
use pier.Alerts.Window.{
  run, IsRule, in_breach, breach_start, evaluate-known, window-updated, IsRule-update_breach_window,
  process-numeric, read_if, run-window,
}

module _ (f : Readings) (threshold : f.Reading) (comparison : String) where
  abbrev fire_if : Bool → EventKind
  fire_if b = if b then fire else no_change

  -- the breach has lasted for `secs` at `now`, if it began at the time given or else now
  abbrev pub held : ℕ → Option ℕ → ℕ → Bool
  held secs begun now = seconds_passed secs (unwrap_or begun now) now

  evaluate-idle :
      (r : AlertRule f) (breached : Bool) (now : ℕ)
      → str_eq r.last_state "firing" ≡ false
      → evaluate_known f r breached now
        ≡ fire_if (breached && held r.duration_secs r.first_breach_at now)
  unfolding evaluate_idle
  evaluate-idle r true now idle = ground (arith, idle)
  evaluate-idle r false now idle = ground (arith, idle)

  updated_held :
      (secs : ℕ) (r : AlertRule f) (value : f.Reading) (now : ℕ) (breached : Bool)
      → IsRule f threshold comparison secs r
      → (breached
          && held r.duration_secs (update_breach_window f r breached value now).first_breach_at now)
        ≡ (breached && held secs r.first_breach_at now)
  updated_held secs r value now true i =
      ap (λ d. held d (update_breach_window f r true value now).first_breach_at now) i.duration
      ∙ ap (λ b. held secs b now) (window-updated f threshold comparison r value now true)
  updated_held secs r value now false i = refl

  fires_if :
      (b delivered : Bool) (now : ℕ) (a : Alerts f)
      → str_eq a.rule.last_state "firing" ≡ false
      → ((act_on f (fire_if b) (some delivered) now a).rule.last_state ≡ "firing") ↔ (b ≡ true)
  unfolding send_and_record
  fires_if true delivered now a idle = (λ _. refl, λ _. refl)
  fires_if false delivered now a idle =
      (λ e. ground (arith, idle, (eq_iff a.rule.last_state "firing").1 e), λ e. cc)

  -- One tick with a reading, on a rule that is not firing.
  fires :
      (secs : ℕ) (tick : Tick f) (value : f.Reading) (delivered : Bool) (a : Alerts f)
      → IsRule f threshold comparison secs a.rule
      → tick.value ≡ some value
      → tick.channel ≡ some delivered
      → str_eq a.rule.last_state "firing" ≡ false
      → ((process_rule f tick a).rule.last_state ≡ "firing") ↔ (
          (in_breach f threshold comparison value && held secs a.rule.first_breach_at tick.now)
          ≡ true)
  unfolding update_breach_window
  fires secs tick value delivered a i v c idle =
      let b = in_breach f threshold comparison value in
      let seen = compare f value (unwrap_or a.rule.threshold f.zero_reading) a.rule.comparison in
      let same : seen ≡ b =
        ap (λ t. compare f value (unwrap_or t f.zero_reading) a.rule.comparison) i.known
        ∙ ap (compare f value threshold) i.same_comparison in
      let r = update_breach_window f a.rule seen value tick.now in
      let j =
        IsRule-update_breach_window f threshold comparison secs a.rule seen value tick.now i in
      let kind : evaluate f r value tick.now
          ≡ fire_if (b && held secs a.rule.first_breach_at tick.now) =
        evaluate-known f threshold comparison secs r value tick.now j
        ∙ evaluate-idle r b tick.now idle
        ∙ ap
            (λ x. fire_if (
              b
              && held a.rule.duration_secs
                  (update_breach_window f a.rule x value tick.now).first_breach_at tick.now))
            same
        ∙ ap fire_if (updated_held secs a.rule value tick.now b i) in
      let after : process_rule f tick a
          ≡ act_on f (fire_if (b && held secs a.rule.first_breach_at tick.now)) (some delivered)
              tick.now (record a { rule = r }) =
        process-numeric f threshold comparison tick a i.metric
        ∙ ap (λ o. read_if f threshold comparison tick o a) v
        ∙ ap (λ k. act_on f k tick.channel tick.now (record a { rule = r })) kind
        ∙ ap
            (λ ch.
              act_on f (fire_if (b && held secs a.rule.first_breach_at tick.now)) ch tick.now
                (record a { rule = r }))
            c in
      subst
        (λ x.
          (x.rule.last_state ≡ "firing")
          ↔ ((b && held secs a.rule.first_breach_at tick.now) ≡ true))
        (sym after)
        (fires_if (b && held secs a.rule.first_breach_at tick.now) delivered tick.now
          (record a { rule = r }) idle)

-- For a rule of a numeric metric with a threshold: after any ticks, from a rule that was in no breach, `first_breach_at` is the
-- time of the oldest of the newest readings that are all in breach, as the history tells it. If the
-- rule is not firing then, it fires at the next reading, the channel being configured, exactly if that
-- reading is in breach too and the breach has lasted for `duration_secs` by then.
pub process_rule_lem :
    (f : Readings) (threshold : f.Reading) (comparison : String) (secs : ℕ) (ticks : List (Tick f))
    (a : Alerts f) (tick : Tick f) (value : f.Reading) (delivered : Bool)
    → IsRule f threshold comparison secs a.rule
    → a.rule.first_breach_at ≡ none
    → tick.value ≡ some value
    → tick.channel ≡ some delivered
    → str_eq (run f ticks a).rule.last_state "firing" ≡ false
    → ((run f ticks a).rule.first_breach_at ≡ breach_start f threshold comparison ticks)
      × (((run f (tick ∷ ticks) a).rule.last_state ≡ "firing") ↔ (
          (in_breach f threshold comparison value
            && held f threshold comparison secs
                (breach_start f threshold comparison ticks)
                tick.now)
          ≡ true))
process_rule_lem f threshold comparison secs ticks a tick value delivered i e v c idle =
    let (w, j) = run-window f threshold comparison secs ticks a i e in
    (
      w,
      subst
          (λ b. ((run f (tick ∷ ticks) a).rule.last_state ≡ "firing") ↔ (
            (in_breach f threshold comparison value && held f threshold comparison secs b tick.now)
            ≡ true))
          w (fires f threshold comparison secs tick value delivered (run f ticks a) j v c idle),
    )
