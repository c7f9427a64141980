-- ===== src/Alerts/Window.antt =====
-- The breach window of crates/pier-core/src/alerts, against a description by the history of the readings.
use pier.Base.{
  ℕ, String, Bool, true, false, Option, none, some, List, [], ◌∷◌, ◌≡◌, inl, inr, refl, sym, ap,
  subst, ◌∙◌, if◌then◌else◌, unwrap_or, arith, Option-cases,
}
use pier.Alerts.{
  Readings, EventKind, fire, resolve, no_change, AlertRule, compare, evaluate_firing, evaluate_idle,
  evaluate_known, evaluate, update_breach_window, Alerts, after_event, send_and_record, act_on,
  is_event_metric, Tick, read, process_rule,
}

module _ (f : Readings) where
  -- The ticks of a list, the newest first.
  abbrev pub run : List (Tick f) → Alerts f → Alerts f
  run [] a = a
  run (tick ∷ older) a = process_rule f tick (run older a)

  -- What stays the same in a rule.
  pub record IsRule (threshold : f.Reading) (comparison : String) (secs : ℕ) (r : AlertRule f)
      : Type 0 where
    pub metric : is_event_metric r.metric ≡ false
    pub known : r.threshold ≡ some threshold
    pub same_comparison : r.comparison ≡ comparison
    pub duration : r.duration_secs ≡ secs

  module _ (threshold : f.Reading) (comparison : String) where
    abbrev pub in_breach : f.Reading → Bool
    in_breach value = compare f value threshold comparison

    -- the start of the breach that still goes on at `now`, which begins now unless it had begun
    abbrev pub start_at : ℕ → Option ℕ → Option ℕ
    start_at now begun = some (unwrap_or begun now)

    -- The time of the oldest of the newest readings that are all in breach, if the newest one is; a tick
    -- without a reading does not count.
    abbrev pub breach_start : List (Tick f) → Option ℕ
    breach_start [] = none
    breach_start (tick ∷ older) = elim tick.value [
      | none ↦ breach_start older
      | some value ↦ if in_breach value then start_at tick.now (breach_start older) else none
    ]

    pub resolve-quiet :
        (r : AlertRule f) (breached : Bool) (now : ℕ)
        → evaluate_known f r breached now ≡ resolve
        → breached ≡ false
    unfolding evaluate_firing evaluate_idle
    resolve-quiet r true now e = ground arith
    resolve-quiet r false now e = refl

    act_on-window :
        (secs : ℕ) (kind : EventKind) (channel : Option Bool) (now : ℕ) (a : Alerts f)
        → (kind ≡ resolve → a.rule.first_breach_at ≡ none)
        → IsRule threshold comparison secs a.rule
        → ((act_on f kind channel now a).rule.first_breach_at ≡ a.rule.first_breach_at)
          × IsRule threshold comparison secs (act_on f kind channel now a).rule
    unfolding send_and_record
    act_on-window secs fire none now a q i = (refl, i)
    act_on-window secs fire (some d) now a q i = (refl, keeps i)
      where
        keeps :
            IsRule threshold comparison secs a.rule
            → IsRule threshold comparison secs (after_event f "firing" now a.rule)
        keeps i = record {
          metric = i.metric;
          known = i.known;
          same_comparison = i.same_comparison;
          duration = i.duration;
        }
    act_on-window secs resolve none now a q i = (refl, i)
    act_on-window secs resolve (some d) now a q i = (
      sym (q refl),
      record {
        metric = i.metric;
        known = i.known;
        same_comparison = i.same_comparison;
        duration = i.duration;
      },
    )
    act_on-window secs no_change channel now a q i = (refl, i)

    pub window-updated :
        (r : AlertRule f) (value : f.Reading) (now : ℕ) (breached : Bool)
        → (update_breach_window f r breached value now).first_breach_at
          ≡ (if breached then start_at now r.first_breach_at else none)
    unfolding update_breach_window
    window-updated r value now true = elim (Option-cases r.first_breach_at) [
      | inl e ↦ ground (arith, e)
      | inr (t, e) ↦ ground (arith, e)
    ]
    window-updated r value now false = ground arith

    pub evaluate-known :
        (secs : ℕ) (r : AlertRule f) (value : f.Reading) (now : ℕ)
        → IsRule threshold comparison secs r
        → evaluate f r value now ≡ evaluate_known f r (in_breach value) now
    unfolding evaluate
    evaluate-known secs r value now i =
        ap
          (λ t. elim t [
            | none ↦ no_change
            | some limit ↦ evaluate_known f r (compare f value limit r.comparison) now
          ])
          i.known
        ∙ ap (λ c. evaluate_known f r (compare f value threshold c) now) i.same_comparison

    pub IsRule-update_breach_window :
        (secs : ℕ) (r : AlertRule f) (breached : Bool) (value : f.Reading) (now : ℕ)
        → IsRule threshold comparison secs r
        → IsRule threshold comparison secs (update_breach_window f r breached value now)
    unfolding update_breach_window
    IsRule-update_breach_window secs r breached value now i = record {
      metric = i.metric;
      known = i.known;
      same_comparison = i.same_comparison;
      duration = i.duration;
    }

    window-read :
        (secs : ℕ) (tick : Tick f) (value : f.Reading) (a : Alerts f)
        → IsRule threshold comparison secs a.rule
        → ((read f tick value a).rule.first_breach_at
            ≡ (if in_breach value then start_at tick.now a.rule.first_breach_at else none))
          × IsRule threshold comparison secs (read f tick value a).rule
    window-read secs tick value a i =
        let seen = compare f value (unwrap_or a.rule.threshold f.zero_reading) a.rule.comparison in
        let same : seen ≡ in_breach value =
          ap (λ t. compare f value (unwrap_or t f.zero_reading) a.rule.comparison) i.known
          ∙ ap (compare f value threshold) i.same_comparison in
        let r = update_breach_window f a.rule seen value tick.now in
        let j = IsRule-update_breach_window secs a.rule seen value tick.now i in
        let w : r.first_breach_at
            ≡ (if in_breach value then start_at tick.now a.rule.first_breach_at else none) =
          window-updated a.rule value tick.now seen
          ∙ ap (λ b. if b then start_at tick.now a.rule.first_breach_at else none) same in
        let (kept, k) =
          act_on-window secs (evaluate f r value tick.now) tick.channel tick.now
            (record a { rule = r })
            (λ e.
              let quiet =
                resolve-quiet r (in_breach value) tick.now
                  (sym (evaluate-known secs r value tick.now j) ∙ e) in
              w ∙ ap (λ b. if b then start_at tick.now a.rule.first_breach_at else none) quiet)
            j in
        (kept ∙ w, k)

    abbrev pub read_if : Tick f → Option f.Reading → Alerts f → Alerts f
    read_if tick none a = a
    read_if tick (some value) a = read f tick value a

    pub process-numeric :
        (tick : Tick f) (a : Alerts f)
        → is_event_metric a.rule.metric ≡ false
        → process_rule f tick a ≡ read_if tick tick.value a
    unfolding process_rule
    process-numeric tick a e = elim (Option-cases tick.value) [
      | inl h ↦ ground (arith, e, h)
      | inr (v, h) ↦ ground (arith, e, h)
    ]

    window-read_if :
        (secs : ℕ) (tick : Tick f) (older : List (Tick f)) (a : Alerts f)
        → IsRule threshold comparison secs a.rule
        → a.rule.first_breach_at ≡ breach_start older
        → ((read_if tick tick.value a).rule.first_breach_at ≡ breach_start (tick ∷ older))
          × IsRule threshold comparison secs (read_if tick tick.value a).rule
    window-read_if secs tick older a i w = go tick.value
      where
        go :
            (o : Option f.Reading)
            → ((read_if tick o a).rule.first_breach_at ≡ elim o [
              | none ↦ breach_start older
              | some value ↦
                  if in_breach value then start_at tick.now (breach_start older) else none
            ])
              × IsRule threshold comparison secs (read_if tick o a).rule
        go none = (w, i)
        go (some value) =
            let (x, k) = window-read secs tick value a i in
            (x ∙ ap (λ b. if in_breach value then start_at tick.now b else none) w, k)

    pub run-window :
        (secs : ℕ) (ticks : List (Tick f)) (a : Alerts f)
        → IsRule threshold comparison secs a.rule
        → a.rule.first_breach_at ≡ none
        → ((run ticks a).rule.first_breach_at ≡ breach_start ticks)
          × IsRule threshold comparison secs (run ticks a).rule
    run-window secs [] a i e = (e, i)
    run-window secs (tick ∷ older) a i e =
        let (w, j) = run-window secs older a i e in
        subst
          (λ x.
            (x.rule.first_breach_at ≡ breach_start (tick ∷ older))
            × IsRule threshold comparison secs x.rule)
          (sym (process-numeric tick (run older a) j.metric))
          (window-read_if secs tick older (run older a) j w)
