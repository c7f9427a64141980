-- ===== src/NetHelper/Helper/DeadMan/Runs.antt =====
-- Runs of the operations of crates/pier-net-helper/src/main.rs: what a commit and a rollback leave.
use pier.Base.{
  ℕ, Text, false, none, some, [], ◌∷◌, ◌≡◌, refl, sym, ap, subst, ◌∙◌, inl, inr, Result, ok, err,
  arith, Result-cases,
}
use pier.NetHelper.Helper.{
  Wireguard, Helper, HelperError, Op, cancel_pending_rollback, apply_begin, apply_sync, apply_arm,
  op_apply, perform_rollback, fire, op_commit, op_rollback, op_write_config, checked_config,
  private_key, quick_down_wg0, restore, ◌>>◌,
}
use pier.NetHelper.Helper.DeadMan.{
  IsArmed, Step, Step-IsArmed, cancelled, Keeps-wg_syncconf, op_apply_ok,
}

-- Some whole operations and wakings, one after the other.
pub data Steps (wg : Wireguard) : Helper → Helper → Type 0 where
  stop : (h : Helper) → Steps wg h h
  next : {h h' h'' : Helper} → Step wg h h' → Steps wg h' h'' → Steps wg h h''

pub Steps-IsArmed : (wg : Wireguard) (h h' : Helper) → Steps wg h h' → IsArmed h → IsArmed h'
Steps-IsArmed wg h h' (stop _) a = a
Steps-IsArmed wg h h' (next {h' = m} s t) a = Steps-IsArmed wg m h' t (Step-IsArmed wg h m s a)

-- However the operations and the wakings follow one another, whole and from a state in which nothing
-- is armed, a commit then leaves no task that could still roll back, an empty slot and no backup, and
-- it changes neither the configuration nor the live interface.
pub commit_disarms :
    (wg : Wireguard) (h h' : Helper)
    → (h.rollback ≡ none) × (h.tasks ≡ [])
    → Steps wg h h'
    → op_commit wg h' ≡ (ok tt, record h' { rollback = none; tasks = []; bak = none })
unfolding op_commit
commit_disarms wg h h' (r, t) s =
    let c =
      cancelled h'
        (Steps-IsArmed wg h h' s (subst (λ x. IsArmed (record h { rollback = x })) (sym r) t)) in
    ap (λ x. (ok tt, record x { bak = none })) c

fire_conf :
    (wg : Wireguard) (task : ℕ) (old : Text) (h : Helper)
    → h.bak ≡ some old
    → ((fire wg task h).conf ≡ some old) × ((fire wg task h).bak ≡ none)
unfolding fire perform_rollback restore
fire_conf wg task old h e =
    let k = Keeps-wg_syncconf wg (record h { conf = some old; bak = none }) in
    subst (λ b. ((restore wg b h).1.conf ≡ some old) × ((restore wg b h).1.bak ≡ none)) (sym e)
      (k.1, k.2)

write_ok :
    (content : Text) (h h1 : Helper)
    → op_write_config content h ≡ (ok tt, h1)
    → (out : Text) × (h1 ≡ record h { conf = some out })
unfolding op_write_config
write_ok content h h1 w = elim (Result-cases (checked_config content (private_key h.privkey))) [
  | inl (out, e) ↦ (out, ground (arith, e))
  | inr (x, e) ↦ ground (arith, e)
]

-- From a state in which nothing is armed or the slot holds the one task that sleeps: when a configuration
-- is written and then applied, and both succeed, the rollback that fires without a commit leaves the
-- configuration that was written, and no backup.
pub rollback_keeps_written :
    (wg : Wireguard) (content : Text) (n : ℕ) (h h1 h2 : Helper)
    → IsArmed h
    → op_write_config content h ≡ (ok tt, h1)
    → op_apply wg n h1 ≡ (ok tt, h2)
    → (h2.tasks ≡ h.next_task ∷ [])
      × ((fire wg h.next_task h2).conf ≡ h1.conf)
      × ((fire wg h.next_task h2).bak ≡ none)
rollback_keeps_written wg content n h h1 h2 a w e =
    let (out, c) = write_ok content h h1 w in
    let (_, _, _, b, _, t) = op_apply_ok wg n h1 h2 (rw c a) e in
    let (f, g) = fire_conf wg h.next_task out h2 (b ∙ ap (λ x. x.conf) c) in
    (t ∙ ap (λ x. x.next_task ∷ []) c, f ∙ sym (ap (λ x. x.conf) c), g)

both :
    (wg : Wireguard) (m k : Op (Unit {0})) (h h' : Helper)
    → (◌>>◌ wg m k) h ≡ (ok tt, h')
    → (h1 : Helper) × (m h ≡ (ok tt, h1)) × (k h1 ≡ (ok tt, h'))
both wg m k h h' e = go (m h) refl e
  where
    go :
        (p : Result HelperError (Unit {0}) × Helper)
        → p ≡ m h
        → (◌>>◌ wg (λ _. p) k) h ≡ (ok tt, h')
        → (h1 : Helper) × (m h ≡ (ok tt, h1)) × (k h1 ≡ (ok tt, h'))
    go (ok tt, h1) q e = (h1, sym q, e)
    go (err x, h1) q e = ground arith

abbrev IsQuiet : Helper → ℕ → Type 0
IsQuiet h n = (h.rollback ≡ none) × (h.tasks ≡ []) × (h.next_task ≡ n)

IsQuiet-apply_begin :
    (wg : Wireguard) (n id : ℕ) (h h' : Helper)
    → IsQuiet h id
    → apply_begin wg n h ≡ (ok tt, h')
    → IsQuiet h' id
unfolding apply_begin cancel_pending_rollback
IsQuiet-apply_begin wg n id h h' (r, t, x) e = ground arith

IsQuiet-apply_sync :
    (wg : Wireguard) (id : ℕ) (h h' : Helper)
    → IsQuiet h id
    → apply_sync wg h ≡ (ok tt, h')
    → IsQuiet h' id
unfolding apply_sync
IsQuiet-apply_sync wg id h h' (r, t, x) e =
    let (a, b, c) = (Keeps-wg_syncconf wg (record h { bak = h.conf })).0 in
    (
      ap (λ p. p.1.rollback) (sym e) ∙ a ∙ r,
      ap (λ p. p.1.tasks) (sym e) ∙ b ∙ t,
      ap (λ p. p.1.next_task) (sym e) ∙ c ∙ x,
    )

-- From a state in which nothing is armed: two applies that interleave, so that both pass their check and
-- their cancellation, then both synchronise with success, and then both arm, leave a task that the slot
-- has lost: the commit that follows does not stop the task of the first.
pub two_applies_leave_task :
    (wg : Wireguard) (n m : ℕ) (h h1 : Helper)
    → (h.rollback ≡ none) × (h.tasks ≡ [])
    → (◌>>◌ wg
          (◌>>◌ wg (◌>>◌ wg (apply_begin wg n) (apply_begin wg m)) (apply_sync wg))
          (apply_sync wg))
        h
      ≡ (ok tt, h1)
    → (op_commit wg ((◌>>◌ wg (apply_arm wg) (apply_arm wg)) h1).1).1.tasks ≡ h.next_task ∷ []
unfolding apply_arm op_commit cancel_pending_rollback
two_applies_leave_task wg n m h h1 (r, t) e =
    let (c, e3, s2) =
      both wg (◌>>◌ wg (◌>>◌ wg (apply_begin wg n) (apply_begin wg m)) (apply_sync wg))
        (apply_sync wg) h h1 e in
    let (b, e2, s1) =
      both wg (◌>>◌ wg (apply_begin wg n) (apply_begin wg m)) (apply_sync wg) h c e3 in
    let (a, b1, b2) = both wg (apply_begin wg n) (apply_begin wg m) h b e2 in
    let id = h.next_task in
    let q = IsQuiet-apply_begin wg n id h a (r, t, refl) b1 in
    let q = IsQuiet-apply_begin wg m id a b q b2 in
    let q = IsQuiet-apply_sync wg id b c q s1 in
    let (_, t, x) = IsQuiet-apply_sync wg id c h1 q s2 in ground (arith, t, x)

-- From a state in which nothing is armed or the slot holds the one task that sleeps, and if `wg-quick down`
-- fails without its file: a rollback right after a commit deletes the configuration that was committed,
-- and the interface stays as it was.
pub rollback_after_commit :
    (wg : Wireguard) (h : Helper)
    → IsArmed h
    → wg.quick_down none ≡ false
    → op_rollback wg (op_commit wg h).1
      ≡ (ok tt, record h { conf = none; bak = none; rollback = none; tasks = [] })
unfolding op_rollback op_commit perform_rollback restore quick_down_wg0
rollback_after_commit wg h a q = rw (cancelled h a, q) refl
