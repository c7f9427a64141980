-- ===== src/Mesh/Render/Accepted.antt =====
-- What `render_wg_conf` writes, the helper of crates/pier-net-helper accepts.
use pier.Base.{
  ℕ, Text, true, false, Option, none, some, List, [], ◌∷◌, ◌++◌, codes, ltb, text_eq, show, ◌≡◌,
  refl, arith, All, contains_char, lines, lines-line, trim, trim_start, trim_end, trim-strip_cr,
  strip_cr, subst, sym, split_once-append, is_whitespace, Bool-cases, inl, inr, ◌==◌,
  show-AreDigits, AreDigits-contains_char, is_ok, ap, ◌∙◌,
}
use pier.NetHelper.Protocol.{
  Section, no_section, interface, peer, is_skipped, is_header, allowed_interface, allowed_peer,
  is_private_key, validate_wg_config_no_privkey,
}
use pier.NetHelper.Protocol.Grammar.{
  Admits, Line, skipped, header_interface, header_peer, directive, IsWellFormed, done, next,
  validate_wg_config-IsWellFormed,
}
use pier.NetHelper.Protocol.Injection.{trim_end-append}
use pier.NetHelper.Helper.{Helper}
use pier.Mesh.Ipv4.{to_string, to_string-address}
use pier.Mesh.Render.{
  MeshConfig, Peer, cidr, push_keepalive, push_peer, push_keyed, push_peers, render_wg_conf,
}

-- No line break.
abbrev pub IsOneLine : Text → Type 0
IsOneLine s = contains_char 10 s ≡ false

IsOneLine-append : (s t : Text) → IsOneLine s → IsOneLine t → IsOneLine (s ++ t)
IsOneLine-append [] t a b = b
IsOneLine-append (c ∷ s) t a b = ground (arith, IsOneLine-append s t)

IsOneLine-All : (s : Text) → All (λ c. (c == 10) ≡ false) s → IsOneLine s
IsOneLine-All [] a = refl
IsOneLine-All (c ∷ s) (h, a) = ground (arith, IsOneLine-All s a)

pub show-IsOneLine : (n : ℕ) → IsOneLine (show n)
show-IsOneLine n = AreDigits-contains_char 10 (show n) refl (show-AreDigits n)

pub cidr-IsOneLine : (ip : ℕ) → IsOneLine (cidr ip)
cidr-IsOneLine ip =
    IsOneLine-append (to_string ip) (codes "/32")
      (IsOneLine-All (to_string ip)
        (to_string-address (λ c. (c == 10) ≡ false) ip λ c e. ground (arith, e)))
      refl

module _ {s t u : Section} where
  push-IsWellFormed :
      (l rest : Text)
      → IsOneLine l
      → Line true s (trim l) t
      → IsWellFormed true t (lines rest) u
      → IsWellFormed true s (lines (l ++ 10 ∷ rest)) u
  push-IsWellFormed l rest clean a b =
      subst (λ ls. IsWellFormed true s ls u) (sym (lines-line l rest clean))
        (next (strip_cr l) (lines rest) (subst (λ x. Line true s x t) (sym (trim-strip_cr l)) a) b)

-- `key = value`
directive-Line :
    (s : Section) (key value : Text)
    → trim_start (key ++ b'=' ∷ value) ≡ key ++ b'=' ∷ value
    → contains_char b'=' key ≡ false
    → is_skipped (key ++ b'=' ∷ trim_end value) ≡ false
    → is_header (key ++ b'=' ∷ trim_end value) ≡ false
    → Admits true s (trim key)
    → Line true s (trim (key ++ b'=' ∷ value)) s
unfolding trim
directive-Line s key value start clean more body admits =
    subst (λ l. Line true s l s)
      (sym (ap trim_end start ∙ trim_end-append key value b'=' (unfold is_whitespace in refl)))
      (directive s (key ++ b'=' ∷ trim_end value) key (trim_end value) more body
        (split_once-append b'=' key (trim_end value) clean) admits)

comment-Line : (s : Section) (name : Text) → Line true s (trim (codes "# " ++ name)) s
unfolding trim trim_start is_whitespace
comment-Line s name =
    subst (λ l. Line true s l s) (sym (trim_end-append [] (32 ∷ name) b'#' refl)) (skipped s _ refl)

-- A peer whose texts have no line break.
pub record IsPlain (p : Peer) : Type 0 where
  pub name : IsOneLine p.server_name
  pub key : (pk : Text) → p.public_key ≡ some pk → IsOneLine pk
  pub endpoint : IsOneLine p.endpoint

keepalive-IsWellFormed :
    (n : ℕ) (rest : Text) (u : Section)
    → IsWellFormed true peer (lines rest) u
    → IsWellFormed true peer (lines (push_keepalive n rest)) u
keepalive-IsWellFormed n rest u w = elim (Bool-cases (ltb 0 n)) [
  | inl e ↦ rw e (
      push-IsWellFormed (codes "PersistentKeepalive =" ++ 32 ∷ show n) rest (show-IsOneLine n)
        (directive-Line peer (codes "PersistentKeepalive ") (32 ∷ show n)
          (unfold trim_start is_whitespace in refl) refl refl refl
          (unfold trim trim_start trim_end is_whitespace allowed_peer in refl))
        w)
  | inr e ↦ rw e w
]

blank-Line : (s : Section) → Line true s (trim []) s
blank-Line s = skipped s (trim []) (unfold trim trim_start trim_end is_whitespace in refl)

peer-Line : (s : Section) → Line true s (trim (codes "[Peer]")) peer
peer-Line s =
    unfold trim trim_start trim_end is_whitespace in header_peer s (codes "[Peer]") refl refl refl

push_peer-IsWellFormed :
    (config : MeshConfig) (p : Peer) (pk rest : Text) (s u : Section)
    → IsOneLine p.server_name
    → IsOneLine pk
    → IsOneLine p.endpoint
    → IsWellFormed true peer (lines rest) u
    → IsWellFormed true s (lines (push_peer config p pk rest)) u
push_peer-IsWellFormed config p pk rest s u name key endpoint w =
    push-IsWellFormed [] _ refl (blank-Line s) (
      push-IsWellFormed (codes "[Peer]") _ refl (peer-Line s) (
        push-IsWellFormed (codes "# " ++ p.server_name) _ name (comment-Line peer p.server_name) (
          push-IsWellFormed (codes "PublicKey =" ++ 32 ∷ pk) _ key
            (directive-Line peer (codes "PublicKey ") (32 ∷ pk)
              (unfold trim_start is_whitespace in refl) refl refl refl
              (unfold trim trim_start trim_end is_whitespace allowed_peer in refl))
            (push-IsWellFormed (codes "Endpoint =" ++ 32 ∷ p.endpoint) _ endpoint
              (directive-Line peer (codes "Endpoint ") (32 ∷ p.endpoint)
                (unfold trim_start is_whitespace in refl) refl refl refl
                (unfold trim trim_start trim_end is_whitespace allowed_peer in refl))
              (push-IsWellFormed (codes "AllowedIPs =" ++ 32 ∷ cidr p.assigned_ip) _
                (cidr-IsOneLine p.assigned_ip)
                (directive-Line peer (codes "AllowedIPs ") (32 ∷ cidr p.assigned_ip)
                  (unfold trim_start is_whitespace in refl) refl refl refl
                  (unfold trim trim_start trim_end is_whitespace allowed_peer in refl))
                (keepalive-IsWellFormed config.persistent_keepalive rest u w))))))

push_keyed-IsWellFormed :
    (config : MeshConfig) (p : Peer) (pk : Option Text) (rest : Text)
    → IsOneLine p.server_name
    → ((k : Text) → pk ≡ some k → IsOneLine k)
    → IsOneLine p.endpoint
    → ((s : Section) → (u : Section) × IsWellFormed true s (lines rest) u)
    → (s : Section) → (u : Section) × IsWellFormed true s (lines (push_keyed config p pk rest)) u
push_keyed-IsWellFormed config p none rest name key endpoint w s = w s
push_keyed-IsWellFormed config p (some k) rest name key endpoint w s =
    let (u, c) = w peer in
    (u, push_peer-IsWellFormed config p k rest s u name (key k refl) endpoint c)

push_peers-IsWellFormed :
    (local : Peer) (config : MeshConfig) (ps : List Peer)
    → All IsPlain ps
    → (s : Section) → (u : Section) × IsWellFormed true s (lines (push_peers local config ps)) u
unfolding push_peers
push_peers-IsWellFormed local config [] a s = (s, unfold lines in done s)
push_peers-IsWellFormed local config (p ∷ ps) (h, a) s =
    let rest = push_peers-IsWellFormed local config ps a in
    elim (Bool-cases (text_eq p.server_id local.server_id)) [
      | inl e ↦ rw e (rest s)
      | inr e ↦ rw e (
          push_keyed-IsWellFormed config p p.public_key (push_peers local config ps) h.name h.key
            h.endpoint rest s)
    ]

interface-Line : Line true no_section (trim (codes "[Interface]")) interface
interface-Line =
    unfold trim trim_start trim_end is_whitespace in
    header_interface no_section (codes "[Interface]") refl refl refl

-- Whatever the node, the addresses, the port and the keepalive: when no peer has a line break in its
-- name, its key or its endpoint, the helper accepts the rendered configuration over the wire, where a
-- private key is refused.
pub render_wg_conf-IsAccepted :
    (local : Peer) (ps : List Peer) (config : MeshConfig)
    → All IsPlain ps
    → is_ok (validate_wg_config_no_privkey (render_wg_conf local ps config)) ≡ true
unfolding render_wg_conf validate_wg_config_no_privkey is_private_key
render_wg_conf-IsAccepted local ps config a =
    let (u, c) = push_peers-IsWellFormed local config ps a interface in
    (validate_wg_config-IsWellFormed _ true).1 (
      u,
      push-IsWellFormed (codes "[Interface]") _ refl interface-Line (
          push-IsWellFormed {t = interface} (codes "Address =" ++ 32 ∷ cidr local.assigned_ip) _
            (cidr-IsOneLine local.assigned_ip)
            (directive-Line interface (codes "Address ") (32 ∷ cidr local.assigned_ip)
              (unfold trim_start is_whitespace in refl) refl refl refl
              (unfold trim trim_start trim_end is_whitespace allowed_interface in
                (refl, λ e. refl)))
            (push-IsWellFormed {t = interface}
              (codes "ListenPort =" ++ 32 ∷ show config.listen_port) _
              (show-IsOneLine config.listen_port)
              (directive-Line interface (codes "ListenPort ") (32 ∷ show config.listen_port)
                (unfold trim_start is_whitespace in refl) refl refl refl
                (unfold trim trim_start trim_end is_whitespace allowed_interface in
                  (refl, λ e. refl)))
              c)),
    )
