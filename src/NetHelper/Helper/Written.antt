-- ===== src/NetHelper/Helper/Written.antt =====
-- `op_write_config` of crates/pier-net-helper/src/main.rs writes what the whitelist of
-- crates/pier-net-helper/src/protocol.rs accepts.
use pier.Base.{
  Text, true, false, Option, none, some, ◌≡◌, ◌⊎◌, inl, inr, lines, any, map, strip_cr,
  contains_char, ok, err, is_ok, Result-cases, arith,
}
use pier.NetHelper.Protocol.{validate_wg_config, validate_wg_config_no_privkey}
use pier.NetHelper.Protocol.Injection.{inject_private_key-IsWellFormed, is_interface, insert_line}
use pier.NetHelper.Helper.{Helper, HelperError, op_write_config, checked_config, private_key}

checked_config-eq-ok :
    (content : Text) (key : Option Text) (out : Text)
    → checked_config content key ≡ ok out
    → (is_ok (validate_wg_config_no_privkey content) ≡ true)
      × (is_ok (validate_wg_config out) ≡ true)
unfolding checked_config
checked_config-eq-ok content none out e = ground arith
checked_config-eq-ok content (some key) out e = ground arith

-- Whatever text arrives over the socket, `op_write_config` either changes nothing and answers an
-- error, or the text had no `PrivateKey` and kept the whitelist, and the only change is that
-- `wg0.conf` now holds a text that keeps the whitelist of local configurations.
pub op_write_config_safe :
    (content : Text) (h : Helper)
    → ((e : HelperError) × (op_write_config content h ≡ (err e, h)))
      ⊎ ((out : Text) × (op_write_config content h ≡ (ok tt, record h { conf = some out }))
          × (is_ok (validate_wg_config_no_privkey content) ≡ true)
          × (is_ok (validate_wg_config out) ≡ true))
unfolding op_write_config
op_write_config_safe content h =
    elim (Result-cases (checked_config content (private_key h.privkey))) [
      | inl (out, e) ↦
          let (w, v) = checked_config-eq-ok content (private_key h.privkey) out e in
          inr (out, ground (arith, e), w, v)
      | inr (x, e) ↦ inl (x, ground (arith, e))
    ]

-- A text that passes the validation over the wire and has an `[Interface]` line is written, when the
-- key file holds a key of one line: `wg0.conf` then has the text's lines with one more, the private
-- key, behind the first `[Interface]`, up to a "\r" at the end of a line.
pub op_write_config_total :
    (content key : Text) (h : Helper)
    → private_key h.privkey ≡ some key
    → contains_char 10 key ≡ false
    → is_ok (validate_wg_config_no_privkey content) ≡ true
    → any is_interface (lines content) ≡ true
    → (out : Text) × (op_write_config content h ≡ (ok tt, record h { conf = some out }))
      × (lines out ≡ map strip_cr (insert_line key (lines content)))
unfolding op_write_config checked_config
op_write_config_total content key h k one valid i =
    let (out, e, l, v) = (inject_private_key-IsWellFormed content key one valid).1 i in
    (out, ground (arith, k, valid, e, v), l)
