-- ===== src/Mesh/Render/ReadBack.antt =====
-- What a reader of the configuration finds in the text of `render_wg_conf`
-- (crates/pier-core/src/network/wireguard.rs).
use pier.Base.{
  ℕ, Text, true, false, Option, none, some, List, [], ◌∷◌, ◌++◌, codes, if◌then◌else◌, ltb, text_eq,
  show, ◌≡◌, refl, arith, All, contains_char, lines, lines-line, trim, trim_start, trim_end,
  trim-strip_cr, ap, ◌∙◌, split_once, split_once-append, is_whitespace, Bool-cases, inl, inr,
  show-AreDigits, AreDigits-IsSolid, IsSolid, IsSolid-append, inner, trim-trim_end,
}
use pier.NetHelper.Protocol.{is_skipped, is_header}
use pier.NetHelper.Protocol.Injection.{trim_end-append}
use pier.Mesh.Ipv4.{to_string, to_string-address, is_address_char}
use pier.Mesh.Render.{
  MeshConfig, Peer, cidr, push_line, push_keepalive, push_peer, push_keyed, push_peers,
  render_wg_conf,
}
use pier.Mesh.Render.Accepted.{IsOneLine, show-IsOneLine, cidr-IsOneLine}

abbrev read_pair : Option (Text × Text) → List (Text × Text)
read_pair none = []
read_pair (some (key, value)) = (trim key, trim value) ∷ []

-- A trimmed line: nothing of a comment, a section's name, or a key with its value.
abbrev pub read_line : Text → List (Text × Text)
read_line line =
    if is_skipped line
    then []
    else if is_header line
    then (inner line, []) ∷ []
    else read_pair (split_once b'=' line)

unfoldable pub read_lines : List Text → List (Text × Text)
read_lines [] = []
read_lines (raw ∷ rest) = read_line (trim raw) ++ read_lines rest

read_lines-push :
    (l rest : Text)
    → IsOneLine l
    → read_lines (lines (l ++ 10 ∷ rest)) ≡ read_line (trim l) ++ read_lines (lines rest)
unfolding read_lines
read_lines-push l rest h =
    ap read_lines (lines-line l rest h)
    ∙ ap (λ t. read_line t ++ read_lines (lines rest)) (trim-strip_cr l)

IsSolid-IsOneLine : (s : Text) → IsSolid s → IsOneLine s
unfolding is_whitespace
IsSolid-IsOneLine [] a = refl
IsSolid-IsOneLine (c ∷ s) (h, a) = ground (arith, h, IsSolid-IsOneLine s a)

read_directive :
    (key name v : Text)
    → trim_start (key ++ b'=' ∷ 32 ∷ v) ≡ key ++ b'=' ∷ 32 ∷ v
    → contains_char b'=' key ≡ false
    → is_skipped (key ++ b'=' ∷ trim_end (32 ∷ v)) ≡ false
    → is_header (key ++ b'=' ∷ trim_end (32 ∷ v)) ≡ false
    → trim key ≡ name
    → IsSolid v
    → read_line (trim (key ++ b'=' ∷ 32 ∷ v)) ≡ (name, v) ∷ []
unfolding trim
read_directive key name v start clean more body same solid =
    rw
      (
        start,
        trim_end-append key (32 ∷ v) b'=' (unfold is_whitespace in refl),
        more,
        body,
        split_once-append b'=' key (trim_end (32 ∷ v)) clean,
        trim-trim_end v solid,
      )
      (ap (λ k. (k, v) ∷ []) same)

-- A line that is written, in front of what is read behind it.
push_directive :
    (line name v rest : Text) {more : List (Text × Text)}
    → IsOneLine line
    → read_line (trim line) ≡ (name, v) ∷ []
    → read_lines (lines rest) ≡ more
    → read_lines (lines (push_line line rest)) ≡ (name, v) ∷ more
push_directive line name v rest one e e' =
    read_lines-push line rest one
    ∙ ap (λ t. t ++ read_lines (lines rest)) e
    ∙ ap (λ t. (name, v) ∷ t) e'

push_skipped :
    (line rest : Text) {more : List (Text × Text)}
    → IsOneLine line
    → read_line (trim line) ≡ []
    → read_lines (lines rest) ≡ more
    → read_lines (lines (push_line line rest)) ≡ more
push_skipped line rest one e e' =
    read_lines-push line rest one ∙ ap (λ t. t ++ read_lines (lines rest)) e ∙ e'

-- A peer whose name has no line break, and whose key and endpoint have no blank.
pub record IsClean (p : Peer) : Type 0 where
  pub name : IsOneLine p.server_name
  pub key : (pk : Text) → p.public_key ≡ some pk → IsSolid pk
  pub endpoint : IsSolid p.endpoint

abbrev keepalive : ℕ → List (Text × Text)
keepalive n = if ltb 0 n then (codes "PersistentKeepalive", show n) ∷ [] else []

-- The directives of a peer's section.
abbrev pub peer_section : MeshConfig → Peer → Text → List (Text × Text)
peer_section config p pk =
    (codes "Peer", [])
    ∷ (codes "PublicKey", pk)
    ∷ (codes "Endpoint", p.endpoint)
    ∷ (codes "AllowedIPs", cidr p.assigned_ip)
    ∷ keepalive config.persistent_keepalive

abbrev keyed_section : MeshConfig → Peer → Option Text → List (Text × Text)
keyed_section config p none = []
keyed_section config p (some pk) = peer_section config p pk

-- The sections of the peers that are neither the node itself nor without a key.
abbrev pub sections : Peer → MeshConfig → List Peer → List (Text × Text)
sections local config [] = []
sections local config (p ∷ ps) =
    (if text_eq p.server_id local.server_id then [] else keyed_section config p p.public_key)
    ++ sections local config ps

cidr-IsSolid : (ip : ℕ) → IsSolid (cidr ip)
cidr-IsSolid ip =
    IsSolid-append (to_string ip) (codes "/32")
      (to_string-address (λ c. is_whitespace c ≡ false) ip solid)
      (unfold is_whitespace in (refl, (refl, (refl, tt))))
  where
    solid : (c : ℕ) → is_address_char c ≡ true → is_whitespace c ≡ false
    solid c e = unfold is_whitespace in ground (arith, e)

show-IsSolid : (n : ℕ) → IsSolid (show n)
show-IsSolid n = AreDigits-IsSolid (show n) (show-AreDigits n)

read-keepalive :
    (n : ℕ) (rest : Text)
    → read_lines (lines (push_keepalive n rest)) ≡ keepalive n ++ read_lines (lines rest)
read-keepalive n rest = elim (Bool-cases (ltb 0 n)) [
  | inl e ↦ rw e (
      push_directive (codes "PersistentKeepalive =" ++ 32 ∷ show n) (codes "PersistentKeepalive")
        (show n) rest (show-IsOneLine n)
        (read_directive (codes "PersistentKeepalive ") (codes "PersistentKeepalive") (show n)
          (unfold trim_start is_whitespace in refl) refl refl refl
          (unfold trim trim_start trim_end is_whitespace in refl) (show-IsSolid n))
        refl)
  | inr e ↦ rw e refl
]

read-comment : (name : Text) → read_line (trim (codes "# " ++ name)) ≡ []
unfolding trim trim_start is_whitespace
read-comment name = rw (trim_end-append [] (32 ∷ name) b'#' refl) refl

read-push_peer :
    (config : MeshConfig) (p : Peer) (pk rest : Text)
    → IsOneLine p.server_name
    → IsSolid pk
    → IsSolid p.endpoint
    → read_lines (lines (push_peer config p pk rest))
      ≡ peer_section config p pk ++ read_lines (lines rest)
read-push_peer config p pk rest name key endpoint =
    push_skipped [] _ refl (unfold trim trim_start trim_end is_whitespace in refl) (
      push_directive (codes "[Peer]") (codes "Peer") [] _ refl
        (unfold trim trim_start trim_end is_whitespace in refl)
        (push_skipped (codes "# " ++ p.server_name) _ name (read-comment p.server_name) (
          push_directive (codes "PublicKey =" ++ 32 ∷ pk) (codes "PublicKey") pk _
            (IsSolid-IsOneLine pk key)
            (read_directive (codes "PublicKey ") (codes "PublicKey") pk
              (unfold trim_start is_whitespace in refl) refl refl refl
              (unfold trim trim_start trim_end is_whitespace in refl) key)
            (push_directive (codes "Endpoint =" ++ 32 ∷ p.endpoint) (codes "Endpoint") p.endpoint _
              (IsSolid-IsOneLine p.endpoint endpoint)
              (read_directive (codes "Endpoint ") (codes "Endpoint") p.endpoint
                (unfold trim_start is_whitespace in refl) refl refl refl
                (unfold trim trim_start trim_end is_whitespace in refl) endpoint)
              (push_directive (codes "AllowedIPs =" ++ 32 ∷ cidr p.assigned_ip) (codes "AllowedIPs")
                (cidr p.assigned_ip) _ (cidr-IsOneLine p.assigned_ip)
                (read_directive (codes "AllowedIPs ") (codes "AllowedIPs") (cidr p.assigned_ip)
                  (unfold trim_start is_whitespace in refl) refl refl refl
                  (unfold trim trim_start trim_end is_whitespace in refl)
                  (cidr-IsSolid p.assigned_ip))
                (read-keepalive config.persistent_keepalive rest))))))

read-push_keyed :
    (config : MeshConfig) (p : Peer) (pk : Option Text) (rest : Text)
    → IsOneLine p.server_name
    → ((k : Text) → pk ≡ some k → IsSolid k)
    → IsSolid p.endpoint
    → read_lines (lines (push_keyed config p pk rest))
      ≡ keyed_section config p pk ++ read_lines (lines rest)
read-push_keyed config p none rest name key endpoint = refl
read-push_keyed config p (some k) rest name key endpoint =
    read-push_peer config p k rest name (key k refl) endpoint

read-push_peers :
    (local : Peer) (config : MeshConfig) (ps : List Peer)
    → All IsClean ps
    → read_lines (lines (push_peers local config ps)) ≡ sections local config ps
unfolding push_peers
read-push_peers local config [] a = unfold lines read_lines in refl
read-push_peers local config (p ∷ ps) (h, a) =
    let rest = read-push_peers local config ps a in
    elim (Bool-cases (text_eq p.server_id local.server_id)) [
      | inl e ↦ rw e rest
      | inr e ↦ rw e (
          read-push_keyed config p p.public_key (push_peers local config ps) h.name h.key h.endpoint
          ∙ ap (λ t. keyed_section config p p.public_key ++ t) rest)
    ]

-- A reader of the rendered text finds the node's own address and port, and exactly the peers that are
-- not the node itself and have a key, in their order, each with its key, its endpoint, its address as
-- the only allowed one, and the keepalive if it is not 0. It holds when no name has a line break, and
-- no key and no endpoint a blank.
pub render_wg_conf-read_lines :
    (local : Peer) (ps : List Peer) (config : MeshConfig)
    → All IsClean ps
    → read_lines (lines (render_wg_conf local ps config))
      ≡ (codes "Interface", [])
        ∷ (codes "Address", cidr local.assigned_ip)
        ∷ (codes "ListenPort", show config.listen_port)
        ∷ sections local config ps
unfolding render_wg_conf
render_wg_conf-read_lines local ps config a =
    push_directive (codes "[Interface]") (codes "Interface") [] _ refl
      (unfold trim trim_start trim_end is_whitespace in refl)
      (push_directive (codes "Address =" ++ 32 ∷ cidr local.assigned_ip) (codes "Address")
        (cidr local.assigned_ip) _ (cidr-IsOneLine local.assigned_ip)
        (read_directive (codes "Address ") (codes "Address") (cidr local.assigned_ip)
          (unfold trim_start is_whitespace in refl) refl refl refl
          (unfold trim trim_start trim_end is_whitespace in refl) (cidr-IsSolid local.assigned_ip))
        (push_directive (codes "ListenPort =" ++ 32 ∷ show config.listen_port) (codes "ListenPort")
          (show config.listen_port) _ (show-IsOneLine config.listen_port)
          (read_directive (codes "ListenPort ") (codes "ListenPort") (show config.listen_port)
            (unfold trim_start is_whitespace in refl) refl refl refl
            (unfold trim trim_start trim_end is_whitespace in refl)
            (show-IsSolid config.listen_port))
          (read-push_peers local config ps a)))
