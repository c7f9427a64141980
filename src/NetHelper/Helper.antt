-- ===== src/NetHelper/Helper.antt =====
-- The operations of crates/pier-net-helper/src/main.rs over the files and the interface that they
-- manage. The `wg` and `wg-quick` commands are the parameter `Wireguard`.
pub mod DeadMan
pub mod Written
use pier.Base.{
  ℕ, ◌+◌, Text, Bool, true, false, not, ◌&&◌, ◌||◌, Option, none, some, List, [], ◌∷◌, ◌++◌, codes,
  is_empty, leb, ltb, ◌==◌, text_eq, trim, lines, words, if◌then◌else◌, Result, ok, err, keep,
  is_some,
}
use pier.NetHelper.Protocol.{
  ConfigError, validate_wg_config, validate_wg_config_no_privkey, inject_private_key, contains_text,
}

-- What the external commands answer.
pub record Wireguard : Type 0 where
  -- `wg-quick strip`: the stripped configuration, if the command succeeds on the file
  pub strip : Text → Option Text
  -- whether `wg syncconf wg0` and `wg-quick up wg0` accept a configuration
  pub syncconf : Text → Bool
  pub quick_up : Text → Bool
  -- `wg show wg0 allowed-ips` for a live configuration
  pub allowed_ips : Text → Option Text
  -- whether `wg-quick down wg0` succeeds on the configuration file, which may be missing
  pub quick_down : Option Text → Bool
  -- the routes that `wg-quick up wg0` adds
  pub up_routes : Text → List Text
  -- `wg pubkey`
  pub pubkey : Text → Option Text

-- The node: `wg0.conf`, `wg0.conf.bak` and `wg0.privkey`, the configuration of the live interface and
-- its routes; `HelperState.rollback`, which holds the handle of a task; and the tasks that sleep.
pub record Helper : Type 0 where
  pub conf : Option Text
  pub bak : Option Text
  pub privkey : Option Text
  pub live : Option Text
  pub routes : List Text
  pub rollback : Option ℕ
  pub tasks : List ℕ
  pub next_task : ℕ

pub data HelperError : Type 0 where
  bad_rollback_after strip_failed syncconf_failed up_failed no_private_key : HelperError
  genkey_failed genkey_empty pubkey_failed : HelperError
  rejected : ConfigError → HelperError

abbrev pub Op : Type 0 → Type 0
Op A = Helper → Result HelperError A × Helper

abbrev pub max_rollback_after_sec : ℕ
max_rollback_after_sec = 600

-- `handle.abort()` on the task in the slot
abbrev pub abort : Option ℕ → Helper → Helper
abort none h = h
abort (some task) h = record h { rollback = none; tasks = keep (λ t. not (t == task)) h.tasks }

unfoldable pub cancel_pending_rollback : Helper → Helper
cancel_pending_rollback h = abort h.rollback h

-- the key file, trimmed, unless it is missing or blank
abbrev nonempty : Text → Option Text
nonempty s = if is_empty s then none else some s

unfoldable pub private_key : Option Text → Option Text
private_key none = none
private_key (some s) = nonempty (trim s)

-- `ip route replace`, which is idempotent
abbrev add_route : List Text → Text → List Text
add_route routes cidr =
    if text_eq cidr (codes "(none)") || contains_text routes cidr then routes else cidr ∷ routes

abbrev add_routes : List Text → List Text → List Text
add_routes routes [] = routes
add_routes routes (cidr ∷ more) = add_routes (add_route routes cidr) more

abbrev skip_one : List Text → List Text
skip_one [] = []
skip_one (x ∷ xs) = xs

abbrev routes_of_lines : List Text → List Text → List Text
routes_of_lines routes [] = routes
routes_of_lines routes (l ∷ ls) = routes_of_lines (add_routes routes (skip_one (words l))) ls

module _ (wg : Wireguard) where
  open wg use {strip, syncconf, quick_up, quick_down, up_routes, allowed_ips, pubkey}

  unfoldable pub sync_routes : Text → Helper → Helper
  sync_routes stripped h = elim (allowed_ips stripped) [
    | none ↦ h
    | some text ↦ record h { routes = routes_of_lines h.routes (lines text) }
  ]

  abbrev pub strip_conf : Option Text → Option Text
  strip_conf none = none
  strip_conf (some text) = strip text

  abbrev sync_stripped : Text → Helper → Result HelperError (Unit {0}) × Helper
  sync_stripped stripped h =
      if is_some h.live && syncconf stripped
      then (ok tt, sync_routes stripped (record h { live = some stripped }))
      else (err syncconf_failed, h)

  unfoldable pub wg_syncconf : Op (Unit {0})
  unfolding sync_routes
  wg_syncconf h = elim (strip_conf h.conf) [
    | none ↦ (err strip_failed, h)
    | some stripped ↦ sync_stripped stripped h
  ]

  -- `op_apply` up to its first wait behind the cancellation, up to the arming, and the arming
  unfoldable pub apply_begin : ℕ → Op (Unit {0})
  unfolding cancel_pending_rollback
  apply_begin rollback_after_sec h =
      if rollback_after_sec == 0 || ltb max_rollback_after_sec rollback_after_sec
      then (err bad_rollback_after, h)
      else (ok tt, cancel_pending_rollback h)

  unfoldable pub apply_sync : Op (Unit {0})
  unfolding wg_syncconf
  apply_sync h = wg_syncconf (record h { bak = h.conf })

  unfoldable pub apply_arm : Op (Unit {0})
  apply_arm h = (
    ok tt,
    record h {
      rollback = some h.next_task;
      tasks = h.tasks ++ h.next_task ∷ [];
      next_task = h.next_task + 1;
    },
  )

  infixl 10 ◌>>◌
  abbrev pub ◌>>◌ : Op (Unit {0}) → Op (Unit {0}) → Op (Unit {0})
  ◌>>◌ m k h = let (r, h') = m h in elim r [ ok _ ↦ k h' | err e ↦ (err e, h') ]

  unfoldable pub op_apply : ℕ → Op (Unit {0})
  unfolding apply_begin apply_sync apply_arm
  op_apply rollback_after_sec = apply_begin rollback_after_sec >> apply_sync >> apply_arm

  -- `wg-quick down wg0`, whose outcome nobody looks at
  unfoldable pub quick_down_wg0 : Helper → Helper
  quick_down_wg0 h = if quick_down h.conf then record h { live = none; routes = [] } else h

  unfoldable pub restore : Option Text → Op (Unit {0})
  unfolding wg_syncconf quick_down_wg0
  restore none h = (ok tt, quick_down_wg0 (record h { conf = none }))
  restore (some old) h = wg_syncconf (record h { conf = some old; bak = none })

  unfoldable pub perform_rollback : Op (Unit {0})
  unfolding restore
  perform_rollback h = restore h.bak h

  -- A task wakes up: its rollback, whose error is only logged, and `*guard = None`.
  unfoldable pub fire : ℕ → Helper → Helper
  unfolding perform_rollback
  fire task h =
      let h' = (perform_rollback h).1 in
      record h' { rollback = none; tasks = keep (λ t. not (t == task)) h'.tasks }

  unfoldable pub op_commit : Op (Unit {0})
  unfolding cancel_pending_rollback
  op_commit h = (ok tt, record (cancel_pending_rollback h) { bak = none })

  unfoldable pub op_rollback : Op (Unit {0})
  unfolding cancel_pending_rollback perform_rollback
  op_rollback h = perform_rollback (cancel_pending_rollback h)

  abbrev start : Option Text → Op (Unit {0})
  start none h = (err up_failed, h)
  start (some text) h =
      if quick_up text
      then (ok tt, record h { live = some text; routes = up_routes text })
      else (err up_failed, h)

  unfoldable pub op_up : Op (Unit {0})
  unfolding wg_syncconf
  op_up h = if is_some h.live then wg_syncconf h else start h.conf h

  unfoldable pub op_down : Op (Unit {0})
  unfolding quick_down_wg0
  op_down h = (ok tt, quick_down_wg0 h)

  unfoldable pub op_uninstall : Op (Unit {0})
  unfolding cancel_pending_rollback quick_down_wg0
  op_uninstall h = (
    ok tt,
    record (quick_down_wg0 (cancel_pending_rollback h)) { conf = none; bak = none; privkey = none },
  )

  abbrev public_of : Text → Helper → Result HelperError Text × Helper
  public_of key h = elim (pubkey key) [ none ↦ (err pubkey_failed, h) | some p ↦ (ok p, h) ]

  -- `fresh` is the output of `wg genkey`, if it is run and succeeds
  unfoldable pub op_generate_keypair : Option Text → Op Text
  unfolding private_key
  op_generate_keypair fresh h = elim (private_key h.privkey) [
    | some key ↦ public_of key h
    | none ↦ elim fresh [
      | none ↦ (err genkey_failed, h)
      | some out ↦
          if is_empty (trim out)
          then (err genkey_empty, h)
          else public_of (trim out) (record h { privkey = some (trim out ++ 10 ∷ []) })
    ]
  ]

-- The text that `op_write_config` writes, or the reason why it refuses.
unfoldable pub checked_config : Text → Option Text → Result HelperError Text
unfolding validate_wg_config validate_wg_config_no_privkey inject_private_key
checked_config content none = elim (validate_wg_config_no_privkey content) [
  | err e ↦ err (rejected e)
  | ok _ ↦ err no_private_key
]
checked_config content (some key) = elim (validate_wg_config_no_privkey content) [
  | err e ↦ err (rejected e)
  | ok _ ↦ elim (inject_private_key content key) [
    | err e ↦ err (rejected e)
    | ok out ↦ elim (validate_wg_config out) [ err e ↦ err (rejected e) | ok _ ↦ ok out ]
  ]
]

unfoldable pub op_write_config : Text → Op (Unit {0})
unfolding checked_config private_key
op_write_config content h = elim (checked_config content (private_key h.privkey)) [
  | err e ↦ (err e, h)
  | ok out ↦ (ok tt, record h { conf = some out })
]
