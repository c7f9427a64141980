-- ===== src/NetHelper/Helper/DeadMan.antt =====
-- The dead-man's switch of crates/pier-net-helper/src/main.rs: which rollbacks are armed.
pub mod Runs
use pier.Base.{
  Bool-cases, if◌then◌else◌, Option-cases, Result-cases, ℕ, ◌+◌, Text, Bool, true, false, not, ◌&&◌,
  ◌||◌, Option, none, some, List, [], ◌∷◌, ◌++◌, ◌≡◌, refl, sym, ap, subst, ◌∙◌, ◌⊎◌, inl, inr, leb,
  ltb, ◌==◌, ◌≤◌, Result, ok, err, arith, keep, is_some,
}
use pier.NetHelper.Helper.{
  restore, abort, ◌>>◌, Wireguard, Helper, HelperError, Op, cancel_pending_rollback, wg_syncconf,
  sync_routes, apply_begin, apply_sync, apply_arm, op_apply, perform_rollback, fire, op_commit,
  op_rollback, op_up, op_down, op_uninstall, op_generate_keypair, op_write_config, checked_config,
  private_key, quick_down_wg0, bad_rollback_after, max_rollback_after_sec,
}

-- Either nothing is armed, or the slot holds the one task that sleeps.
abbrev pub IsArmedIn : Option ℕ → List ℕ → Type 0
IsArmedIn none tasks = tasks ≡ []
IsArmedIn (some task) tasks = tasks ≡ task ∷ []

abbrev pub IsArmed : Helper → Type 0
IsArmed h = IsArmedIn h.rollback h.tasks

-- One whole operation, or the waking of a task that sleeps.
pub data Step (wg : Wireguard) : Helper → Helper → Type 0 where
  apply : (h : Helper) (n : ℕ) → Step wg h (op_apply wg n h).1
  commit : (h : Helper) → Step wg h (op_commit wg h).1
  rollback_now : (h : Helper) → Step wg h (op_rollback wg h).1
  up : (h : Helper) → Step wg h (op_up wg h).1
  down : (h : Helper) → Step wg h (op_down wg h).1
  uninstall : (h : Helper) → Step wg h (op_uninstall wg h).1
  generate : (h : Helper) (fresh : Option Text) → Step wg h (op_generate_keypair wg fresh h).1
  write : (h : Helper) (content : Text) → Step wg h (op_write_config content h).1
  wake :
      (h : Helper) (task : ℕ) (rest : List ℕ) → h.tasks ≡ task ∷ rest → Step wg h (fire wg task h)

-- The parts of the state that the commands on the interface leave alone.
abbrev pub Keeps : Helper → Helper → Type 0
Keeps h h' = (h'.rollback ≡ h.rollback) × (h'.tasks ≡ h.tasks) × (h'.next_task ≡ h.next_task)

pub Keeps-wg_syncconf :
    (wg : Wireguard) (h : Helper)
    → Keeps h (wg_syncconf wg h).1
      × ((wg_syncconf wg h).1.conf ≡ h.conf)
      × ((wg_syncconf wg h).1.bak ≡ h.bak)
unfolding wg_syncconf sync_routes
Keeps-wg_syncconf wg h = ground arith

Keeps-quick_down_wg0 : (wg : Wireguard) (h : Helper) → Keeps h (quick_down_wg0 wg h)
unfolding quick_down_wg0
Keeps-quick_down_wg0 wg h = ground arith

Keeps-restore : (wg : Wireguard) (bak : Option Text) (h : Helper) → Keeps h (restore wg bak h).1
unfolding restore
Keeps-restore wg none h = Keeps-quick_down_wg0 wg (record h { conf = none })
Keeps-restore wg (some old) h = (Keeps-wg_syncconf wg (record h { conf = some old; bak = none })).0

pub Keeps-perform_rollback : (wg : Wireguard) (h : Helper) → Keeps h (perform_rollback wg h).1
unfolding perform_rollback
Keeps-perform_rollback wg h = Keeps-restore wg h.bak h

Keeps-op_up : (wg : Wireguard) (h : Helper) → Keeps h (op_up wg h).1
unfolding op_up
Keeps-op_up wg h = ground (arith, Keeps-wg_syncconf wg h)

Keeps-op_generate_keypair :
    (wg : Wireguard) (fresh : Option Text) (h : Helper) → Keeps h (op_generate_keypair wg fresh h).1
unfolding op_generate_keypair
Keeps-op_generate_keypair wg fresh h = ground arith

Keeps-op_write_config : (content : Text) (h : Helper) → Keeps h (op_write_config content h).1
unfolding op_write_config
Keeps-op_write_config content h = ground arith

IsArmed-Keeps : (h h' : Helper) → Keeps h h' → IsArmed h → IsArmed h'
IsArmed-Keeps h h' (r, t, _) a = rw (r, t) a

pub keep_self : (task : ℕ) → keep (λ t. not (t == task)) (task ∷ []) ≡ []
keep_self task = ground arith

aborted :
    (slot : Option ℕ) (h : Helper)
    → IsArmedIn slot h.tasks
    → slot ≡ h.rollback
    → abort slot h ≡ record h { rollback = none; tasks = [] }
aborted none h a e = rw (sym e, a) refl
aborted (some task) h a e = rw (a, keep_self task) refl

-- After the cancellation the slot is empty and, if the slot held the only task, none sleeps.
pub cancelled :
    (h : Helper) → IsArmed h → cancel_pending_rollback h ≡ record h { rollback = none; tasks = [] }
unfolding cancel_pending_rollback
cancelled h a = aborted h.rollback h a refl

abbrev pub disarmed : Helper → Helper
disarmed h = record h { rollback = none; tasks = [] }

abbrev bad_time : ℕ → Bool
bad_time n = n == 0 || ltb max_rollback_after_sec n

op_apply-disarmed :
    (wg : Wireguard) (n : ℕ) (h : Helper)
    → IsArmed h
    → op_apply wg n h ≡ (
        if bad_time n
        then (err bad_rollback_after, h)
        else (◌>>◌ wg (apply_sync wg) (apply_arm wg)) (disarmed h))
unfolding op_apply apply_begin
op_apply-disarmed wg n h a = ground (arith, cancelled h a)

arm_after :
    (wg : Wireguard) (h h' : Helper)
    → (◌>>◌ wg (apply_sync wg) (apply_arm wg)) (disarmed h) ≡ (ok tt, h')
    → (h'.conf ≡ h.conf)
      × (h'.bak ≡ h.conf)
      × (h'.rollback ≡ some h.next_task)
      × (h'.tasks ≡ h.next_task ∷ [])
unfolding apply_sync apply_arm
arm_after wg h h' e =
    ground (arith, Keeps-wg_syncconf wg (record h { rollback = none; tasks = []; bak = h.conf }))

-- If nothing is armed or the slot holds the one task that sleeps, an apply that succeeds had a time between
-- 1 and 600 seconds, keeps the configuration, has put a copy of it into the backup, and leaves one task,
-- a new one, in the slot.
pub op_apply_ok :
    (wg : Wireguard) (n : ℕ) (h h' : Helper)
    → IsArmed h
    → op_apply wg n h ≡ (ok tt, h')
    → (1 ≤ n)
      × (n ≤ 600)
      × (h'.conf ≡ h.conf)
      × (h'.bak ≡ h.conf)
      × (h'.rollback ≡ some h.next_task)
      × (h'.tasks ≡ h.next_task ∷ [])
op_apply_ok wg n h h' a e = ground (arith, op_apply-disarmed wg n h a, arm_after wg h h')

rest-IsArmed :
    (wg : Wireguard) (h : Helper)
    → IsArmed ((◌>>◌ wg (apply_sync wg) (apply_arm wg)) (disarmed h)).1
unfolding apply_sync apply_arm
rest-IsArmed wg h = go (wg_syncconf wg h') (Keeps-wg_syncconf wg h').0
  where
    h' : Helper
    h' = record h { rollback = none; tasks = []; bak = h.conf }

    go :
        (p : Result HelperError (Unit {0}) × Helper)
        → Keeps h' p.1
        → IsArmed ((◌>>◌ wg (λ _. p) (apply_arm wg)) h').1
    go (ok _, h'') (r, t, _) = rw t refl
    go (err _, h'') k = IsArmed-Keeps h' h'' k refl

op_apply-IsArmed : (wg : Wireguard) (n : ℕ) (h : Helper) → IsArmed h → IsArmed (op_apply wg n h).1
op_apply-IsArmed wg n h a =
    subst (λ p. IsArmed p.1) (sym (op_apply-disarmed wg n h a))
      (elim (Bool-cases (bad_time n)) [ inl e ↦ rw e a | inr e ↦ rw e (rest-IsArmed wg h) ])

pub only_task :
    (slot : Option ℕ) (task : ℕ) (tasks rest : List ℕ)
    → IsArmedIn slot tasks
    → tasks ≡ task ∷ rest
    → keep (λ t. not (t == task)) tasks ≡ []
only_task none task tasks rest a e = cc
only_task (some t) task tasks rest a e = ground (arith, keep_self task)

-- Every operation, run to its end and whatever its outcome, and every waking of a task that sleeps keep it
-- so that either nothing is armed or the slot holds the one task that sleeps.
pub Step-IsArmed : (wg : Wireguard) (h h' : Helper) → Step wg h h' → IsArmed h → IsArmed h'
unfolding op_commit op_rollback op_down op_uninstall fire
Step-IsArmed wg h h' (apply _ n) a = op_apply-IsArmed wg n h a
Step-IsArmed wg h h' (commit _) a = rw (cancelled h a) refl
Step-IsArmed wg h h' (rollback_now _) a = rw (cancelled h a) (
    IsArmed-Keeps (disarmed h) ((perform_rollback wg (disarmed h)).1)
      (Keeps-perform_rollback wg (disarmed h)) refl)
Step-IsArmed wg h h' (up _) a = IsArmed-Keeps h ((op_up wg h).1) (Keeps-op_up wg h) a
Step-IsArmed wg h h' (down _) a =
    IsArmed-Keeps h (quick_down_wg0 wg h) (Keeps-quick_down_wg0 wg h) a
Step-IsArmed wg h h' (uninstall _) a = rw (cancelled h a) (
    IsArmed-Keeps (disarmed h) (quick_down_wg0 wg (disarmed h))
      (Keeps-quick_down_wg0 wg (disarmed h)) refl)
Step-IsArmed wg h h' (generate _ fresh) a =
    IsArmed-Keeps h ((op_generate_keypair wg fresh h).1) (Keeps-op_generate_keypair wg fresh h) a
Step-IsArmed wg h h' (write _ content) a =
    IsArmed-Keeps h ((op_write_config content h).1) (Keeps-op_write_config content h) a
Step-IsArmed wg h h' (wake _ task rest e) a =
    let k = Keeps-perform_rollback wg h in
    ap (keep _) k.1 ∙ only_task h.rollback task h.tasks rest a e
