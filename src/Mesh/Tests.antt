-- ===== src/Mesh/Tests.antt =====
-- A core with one agent and one paired core, whose row is not served.
use pier.Base.{
  ℕ, ◌+◌, true, false, none, some, List, [], ◌∷◌, ◌++◌, codes, ◌≡◌, ◌↔◌, refl, arith, ok, err, All,
  length, is_ok, if◌then◌else◌, ltb, leb, show, lines, internal, bad_request, contains_char,
  IsSolid, split_once, trim, trim_start, trim_end, is_whitespace, parse_u8, read_digits,
}
use pier.NetHelper.Helper.{Helper}
use pier.Mesh.Ipv4.{to_string, no_usable_hosts, parse_ipv4, parse_octet}
use pier.Mesh.Subnet.{
  Subnet, parse, allocate_ip, first_host, last_host, mask_network, block, hosts, next, lowest_free,
}
use pier.Mesh.Subnet.Bounds.{IsSubnet, parse-to_string, parse-IsSubnet}
use pier.Mesh.Subnet.Allocation.{IsLowest, AreUsed, allocate_ip-IsLowest}
use pier.Mesh.Address.{authority, host_for_url, is_ipv6_literal}
use pier.Mesh.Render.{as_render_peer, MeshConfig, Peer, cidr, render_wg_conf}
use pier.Mesh.Render.ReadBack.{IsClean, read_lines, sections, render_wg_conf-read_lines}
use pier.Mesh.Rows.{load_externals, read_externals, ServerRow, MeshDb, load, load_all, join_all}
use pier.Mesh.Plan.{planned_servers, enable_mesh}
use pier.Mesh.Plan.Enable.{planned, enable_mesh-plan}
use pier.Mesh.Configure.{
  provision, key_all, activate_all, mark_error, Dispatch, MeshOp, MeshOpResult, configure_mesh,
  disable_mesh, cleaned,
}
use pier.Mesh.Pairing.{ProposeRequest, propose, adopt_all}
use pier.Mesh.Configure.Active.{IsActive, configure_mesh-IsActive}
use pier.Mesh.Invariant.{IsMesh, MeshHistory, start, step, joins, enable}
use pier.Mesh.Invariant.Planned.{planned-IsMesh}
use pier.Mesh.Invariant.Reenabled.{migrated, MeshHistory-migrated, disable_mesh-enable_mesh}

abbrev net : Subnet
net = record { network = 0x0a2a0000; prefix = 24 }

parse-to_string_example : parse (to_string 0x0a2a0005 ++ b'/' ∷ show 24) ≡ (
    if ltb 30 24
    then err no_usable_hosts
    else ok (record { network = mask_network 0x0a2a0005 24; prefix = 24 }))
parse-to_string_example = parse-to_string 0x0a2a0005 24 (omega arith) (omega arith)

net-parse : parse (codes "10.42.0.5/24") ≡ ok net
unfolding parse parse_ipv4 parse_octet split_once trim trim_start trim_end is_whitespace parse_u8
    read_digits
net-parse = refl

parse-IsSubnet_example : IsSubnet net
parse-IsSubnet_example = parse-IsSubnet (codes "10.42.0.5/24") net net-parse

net-IsSubnet : IsSubnet net
net-IsSubnet = parse-IsSubnet (codes "10.42.0.5/24") net net-parse

abbrev taken : List ℕ
taken = 0x0a2a0001 ∷ 0x0a2a0003 ∷ []

allocate_ip-IsLowest_example :
    ((r : ℕ) → (allocate_ip net taken ≡ some r) ↔ IsLowest taken (first_host net) (last_host net) r)
    × ((allocate_ip net taken ≡ none) ↔ AreUsed taken (first_host net) (last_host net))
allocate_ip-IsLowest_example = allocate_ip-IsLowest net net-IsSubnet taken

second : allocate_ip net taken ≡ some 0x0a2a0002
unfolding allocate_ip hosts lowest_free next first_host last_host
second = refl

abbrev core : ServerRow
core = record {
  id = codes "c";
  name = codes "core";
  host = codes "192.0.2.1";
  is_local = true;
  is_peer = false;
  created_at = 1;
}

abbrev agent : ServerRow
agent = record {
  id = codes "a";
  name = codes "agent";
  host = codes "fe80::1";
  is_local = false;
  is_peer = false;
  created_at = 1;
}

abbrev other : ServerRow
other = record {
  id = codes "p";
  name = codes "other";
  host = codes "192.0.2.9";
  is_local = false;
  is_peer = true;
  created_at = 2;
}

abbrev db : MeshDb
db = record (migrated 0) { servers = core ∷ agent ∷ other ∷ [] }

abbrev narrow : MeshDb
narrow = record db { config = record (db.config) { subnet = codes "10.42.0.0/30" } }

default-parse : parse (codes "10.42.0.0/24") ≡ ok net
unfolding parse parse_ipv4 parse_octet split_once trim trim_start trim_end is_whitespace parse_u8
    read_digits
default-parse = refl

enable_mesh-plan_example : enable_mesh 7 db ≡ (
    if false
    then (err (bad_request "errors.network.mesh_already_enabled"), db)
    else if leb (length (planned_servers db) + 2) (block 24)
    then (ok (length (planned_servers db)), planned net 7 db)
    else (err internal, db))
enable_mesh-plan_example =
    enable_mesh-plan db 7 net default-parse refl ((refl, (refl, tt)), ((refl, tt), (tt, tt)))

db_history : MeshHistory (migrated 0) db
db_history =
    step (step (step (start (migrated 0)) (joins other tt)) (joins agent (refl, tt)))
      (joins core (refl, (refl, tt)))

MeshHistory-migrated_example : IsMesh (enable_mesh 7 db).1
MeshHistory-migrated_example =
    MeshHistory-migrated 0 (enable_mesh 7 db).1 (step db_history (enable 7))

abbrev db-IsMesh : IsMesh db
db-IsMesh = record {
  subnet = net;
  parses = default-parse;
  unprivileged = omega arith;
  port = omega arith;
  idle = λ e. refl;
  hosts = tt;
  unique = tt;
  servers = ((refl, (refl, tt)), ((refl, tt), (tt, tt)));
}

-- Every node answers well.
abbrev answer : MeshOp → MeshOpResult
answer op = record { is_ok = true; result = some (some (codes "K=")); error = none }

abbrev dispatch : Dispatch
dispatch id op = ok (answer op)

abbrev unreachable : Dispatch
unreachable id op = err (codes "timeout")

disable_mesh-enable_mesh_example :
    (is_ok (disable_mesh unreachable true 8 (planned net 7 db)).0 ≡ true)
    × (enable_mesh 9 (disable_mesh unreachable true 8 (planned net 7 db)).1
        ≡ (ok 2, planned net 9 (cleaned 8 (planned net 7 db))))
disable_mesh-enable_mesh_example =
    disable_mesh-enable_mesh unreachable true 8 9 (planned net 7 db) net
      (planned-IsMesh 7 db db-IsMesh (omega arith)) default-parse (omega arith)

abbrev live : MeshDb
live = planned net 7 db

done : (configure_mesh dispatch 8 live).0 ≡ ok true
unfolding configure_mesh load_externals read_externals provision key_all activate_all mark_error
    load load_all join_all parse_ipv4 parse_octet split_once read_digits to_string show authority
    host_for_url is_ipv6_literal first_host as_render_peer
done = refl

configure_mesh-IsActive_example :
    (true ≡ true)
    × ((ps : List Peer) × (load_all live ≡ ok ps)
        × All (λ (p : Peer). IsActive (configure_mesh dispatch 8 live).1 p.server_id) ps)
configure_mesh-IsActive_example = configure_mesh-IsActive dispatch 8 live done

abbrev remote : Peer
remote = record {
  server_id = codes "a";
  server_name = codes "agent one";
  is_local = false;
  assigned_ip = 0x0a2a0002;
  public_key = some (codes "K=");
  endpoint = codes "[fe80::1]:51820";
  status = codes "keyed";
  error_message = none;
  last_handshake = none;
}

abbrev config : MeshConfig
config = record {
  enabled = true;
  subnet = codes "10.42.0.0/24";
  listen_port = 51820;
  persistent_keepalive = 25;
  updated_at = 0;
}

abbrev own : Peer
own = record remote { server_id = codes "c"; server_name = codes "core"; assigned_ip = 0x0a2a0001 }

abbrev helper : Helper
helper = record {
  conf = none;
  bak = none;
  privkey = some (codes "secret=\n");
  live = none;
  routes = [];
  rollback = none;
  tasks = [];
  next_task = 0;
}

IsClean-peer :
    (p : Peer)
    → p.public_key ≡ some (codes "K=")
    → p.endpoint ≡ codes "[fe80::1]:51820"
    → contains_char 10 p.server_name ≡ false
    → IsClean p
IsClean-peer p k e n = record {
  name = n;
  key = λ pk h. let same : codes "K=" ≡ pk = cc in rw (← same) key_solid;
  endpoint = rw e endpoint_solid;
}
  where
    key_solid : IsSolid (codes "K=")
    key_solid = unfold is_whitespace in (refl, (refl, tt))

    endpoint_solid : IsSolid (codes "[fe80::1]:51820")
    endpoint_solid = unfold is_whitespace in ground arith

render_wg_conf-read_lines_example :
    read_lines (lines (render_wg_conf own (own ∷ remote ∷ []) config))
    ≡ (codes "Interface", [])
      ∷ (codes "Address", cidr 0x0a2a0001)
      ∷ (codes "ListenPort", show 51820)
      ∷ sections own config (own ∷ remote ∷ [])
render_wg_conf-read_lines_example =
    render_wg_conf-read_lines own (own ∷ remote ∷ []) config
      (IsClean-peer own refl refl refl, (IsClean-peer remote refl refl refl, tt))

-- A proposal whose address is not one, as it is adopted without a check.
abbrev careless : ProposeRequest
careless = record {
  subnet = codes "10.42.0.0/24";
  listen_port = 51820;
  keepalive = 25;
  assignments = (codes "c", codes "x") ∷ (codes "a", codes "10.42.0.2") ∷ [];
}

abbrev adopted_db : MeshDb
adopted_db = (propose unreachable careless (some (codes "p")) [] 5 6 db).1

-- The mesh cannot be taken down after it.
careless_test : (disable_mesh unreachable true 8 adopted_db).0 ≡ err internal
unfolding propose configure_mesh adopt_all disable_mesh load_all join_all parse_ipv4 parse_octet
    split_once parse_u8 read_digits authority host_for_url is_ipv6_literal
careless_test = refl
