-- ===== src/NetHelper/Tests.antt =====
-- A configuration of one peer, and a node on which the operations run.
use pier.Base.{
  Text, true, false, none, some, [], ◌∷◌, ◌≡◌, ◌↔◌, ◌⊎◌, refl, codes, ok, err, is_ok, any, map,
  lines, strip_cr, subst, trim, split_once,
}
use pier.NetHelper.Protocol.{
  Section, no_section, validate_wg_config_inner, validate_wg_config, validate_wg_config_no_privkey,
  inject_private_key, validate_line, validate_from, section_named, check_key, is_private_key,
  allowed_interface, allowed_peer,
}
use pier.NetHelper.Protocol.Grammar.{IsWellFormed, validate_wg_config-IsWellFormed}
use pier.NetHelper.Protocol.Injection.{is_interface, insert_line, inject_private_key-IsWellFormed}
use pier.NetHelper.Helper.{
  Wireguard, Helper, HelperError, op_apply, op_commit, op_write_config, fire, apply_begin,
  apply_sync, apply_arm, wg_syncconf,
}
use pier.NetHelper.Helper.DeadMan.{IsArmed, Step, wake, apply, Step-IsArmed}
use pier.NetHelper.Helper.DeadMan.Runs.{stop, next, commit_disarms}
use pier.NetHelper.Helper.Written.{op_write_config_safe}

abbrev config : Text
config = codes "# mesh\n[Interface]\nAddress = 10.0.0.1/24\n\n[Peer]\nPublicKey=abc=\n"

abbrev key : Text
key = codes "secret="

config-valid : is_ok (validate_wg_config_no_privkey config) ≡ true
unfolding validate_wg_config_no_privkey trim validate_wg_config_inner validate_from lines
    validate_line section_named split_once check_key is_private_key allowed_interface allowed_peer
config-valid = refl

validate_wg_config-IsWellFormed_example :
    (is_ok (validate_wg_config_inner config true) ≡ true)
    ↔ ((u : Section) × IsWellFormed true no_section (lines config) u)
validate_wg_config-IsWellFormed_example = validate_wg_config-IsWellFormed config true

inject_private_key-IsWellFormed_example :
    (any is_interface (lines config) ≡ false → is_ok (inject_private_key config key) ≡ false)
    × (any is_interface (lines config) ≡ true
        → (out : Text) × (inject_private_key config key ≡ ok out)
          × (lines out ≡ map strip_cr (insert_line key (lines config)))
          × (is_ok (validate_wg_config out) ≡ true))
inject_private_key-IsWellFormed_example =
    inject_private_key-IsWellFormed config key refl config-valid

-- a kernel that takes every configuration
abbrev obliging : Wireguard
obliging = record {
  strip = λ text. some text;
  syncconf = λ _. true;
  quick_up = λ _. true;
  quick_down = λ conf. elim conf [ none ↦ false | some _ ↦ true ];
  up_routes = λ _. [];
  allowed_ips = λ _. none;
  pubkey = λ k. some k;
}

abbrev node : Helper
node = record {
  conf = some (codes "[Interface]\n");
  bak = none;
  privkey = some (codes "secret=\n");
  live = some (codes "[Interface]\n");
  routes = [];
  rollback = none;
  tasks = [];
  next_task = 7;
}

abbrev armed_node : Helper
armed_node = record node { bak = node.conf; rollback = some 7; tasks = 7 ∷ []; next_task = 8 }

Step-IsArmed_example : IsArmed (fire obliging 7 armed_node)
Step-IsArmed_example =
    Step-IsArmed obliging armed_node (fire obliging 7 armed_node) (wake armed_node 7 [] refl) refl

applied : op_apply obliging 30 node ≡ (ok tt, armed_node)
unfolding op_apply apply_begin apply_sync apply_arm wg_syncconf
applied = refl

commit_disarms_example :
    op_commit obliging armed_node
    ≡ (ok tt, record armed_node { rollback = none; tasks = []; bak = none })
commit_disarms_example =
    commit_disarms obliging node armed_node (refl, refl)
      (next (subst (λ p. Step obliging node p.1) applied (apply node 30)) (stop armed_node))

abbrev written : Text
written =
    codes
      "# mesh\n[Interface]\nPrivateKey = secret=\nAddress = 10.0.0.1/24\n\n[Peer]\nPublicKey=abc=\n"

abbrev written_node : Helper
written_node = record node { conf = some written }

abbrev armed_written : Helper
armed_written = record armed_node { conf = some written; bak = some written; live = some written }

config_written : op_write_config config node ≡ (ok tt, written_node)
unfolding op_write_config trim validate_wg_config_inner validate_from lines validate_line
    section_named split_once check_key is_private_key allowed_interface allowed_peer
config_written = refl

written_applied : op_apply obliging 30 written_node ≡ (ok tt, armed_written)
unfolding op_apply apply_begin apply_sync apply_arm wg_syncconf
written_applied = refl

op_write_config_safe_example :
    ((e : HelperError) × (op_write_config config node ≡ (err e, node)))
    ⊎ ((out : Text) × (op_write_config config node ≡ (ok tt, record node { conf = some out }))
        × (is_ok (validate_wg_config_no_privkey config) ≡ true)
        × (is_ok (validate_wg_config out) ≡ true))
op_write_config_safe_example = op_write_config_safe config node
