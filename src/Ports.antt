-- ===== src/Ports.antt =====
-- crates/pier-core/src/db/ports.rs: the allocation of host ports. What the host answers to a bind and
-- the UUIDs are arguments.
pub mod Choice
pub mod Insertion
pub mod Contract
mod Tests
use pier.Base.{
  ℕ, zero, suc, ◌+◌, ◌-◌, ◌%◌, ◌^◌, String, Bool, true, false, not, ◌&&◌, ◌||◌, Option, none, some,
  List, [], ◌∷◌, ◌++◌, map, leb, ◌==◌, if◌then◌else◌, str_eq, any, keep, contains, contains_str,
  length, update_where, is_empty, Result, ok, err, ◌>>=◌,
}

pub record PortAllocation : Type 0 where
  pub id : String
  pub service_id : String
  pub port_name : String
  pub host_port : ℕ
  pub container_port : ℕ
  pub protocol : String
  pub is_public : Bool
  pub public_port : Option ℕ
  pub compose_service : Option String

pub data Address : Type 0 where
  localhost unspecified : Address

-- What `TcpListener::bind` answers.
pub data BindOutcome : Type 0 where
  bound permission_denied in_use : BindOutcome

pub data PortError : Type 0 where
  overrides_length taken_by_pier taken_outside not_enough_ports database index_out_of_bounds :
      PortError

pub record Spec : Type 0 where
  pub port_name : String
  pub container_port : ℕ

abbrev pub Host : Type 0
Host = Address → ℕ → BindOutcome

abbrev counts_as_free : BindOutcome → Bool
counts_as_free bound = true
counts_as_free permission_denied = true
counts_as_free in_use = false

unfoldable pub host_port_free : Host → ℕ → Bool
host_port_free bind port =
    counts_as_free (bind localhost port) && counts_as_free (bind unspecified port)

-- `exempt` is the field of `HostProbe`, if there is a probe
abbrev pub host_taken : Host → Option (List ℕ) → ℕ → Bool
unfolding host_port_free
host_taken bind none p = false
host_taken bind (some exempt) p = not (contains exempt p) && not (host_port_free bind p)

-- `SELECT host_port FROM port_allocations`, each read `as u16`
abbrev pub ports_of : List PortAllocation → List ℕ
ports_of rows = map (λ r. r.host_port % 2 ^ 16) rows

-- The arguments of `allocate_ports` that stay the same for all the specs of a call.
pub record Request : Type 0 where
  pub bind : Host
  pub host_probe : Option (List ℕ)
  pub start : ℕ
  pub end : ℕ
  pub pool_only : Bool

module _ (q : Request) (all_used : List ℕ) where
  abbrev pub taken_on_host : ℕ → Bool
  taken_on_host p = host_taken q.bind q.host_probe p

  abbrev pub is_port_used : ℕ → Bool
  is_port_used p = contains all_used p || taken_on_host p

  -- neither used nor chosen for a spec before this one
  abbrev pub is_free : List ℕ → ℕ → Bool
  is_free newly_allocated p = not (is_port_used p) && not (contains newly_allocated p)

  -- The loop over `[p, end)`; the fuel counts its ports, so that it ends with the fuel at the latest.
  unfoldable pub scan : ℕ → List ℕ → ℕ → Result PortError ℕ
  scan zero newly_allocated p = err not_enough_ports
  scan (suc fuel) newly_allocated p =
      let rest = scan fuel newly_allocated (p + 1) in
      if leb q.end p then err not_enough_ports else if is_free newly_allocated p then ok p else rest

  unfoldable pub choose_requested : List ℕ → ℕ → Result PortError ℕ
  choose_requested newly_allocated requested =
      if contains all_used requested || contains newly_allocated requested
      then err taken_by_pier
      else if taken_on_host requested
      then err taken_outside
      else ok requested

  unfoldable pub choose_auto : List ℕ → ℕ → Result PortError ℕ
  unfolding scan
  choose_auto newly_allocated standard =
      if not q.pool_only && leb 1024 standard && is_free newly_allocated standard
      then ok standard
      else scan (q.end - q.start) newly_allocated q.start

  abbrev pub choose : List ℕ → Option ℕ → ℕ → Result PortError ℕ
  choose newly_allocated none standard = choose_auto newly_allocated standard
  choose newly_allocated (some requested) standard = choose_requested newly_allocated requested

  -- `host_port_overrides.get(i).copied().flatten()` for the first spec that is left, and the rest
  abbrev pub override_of : List (Option ℕ) → Option ℕ
  override_of [] = none
  override_of (o ∷ os) = o

  abbrev pub overrides_after : List (Option ℕ) → List (Option ℕ)
  overrides_after [] = []
  overrides_after (o ∷ os) = os

  -- the ports of the specs, in their order
  unfoldable pub choose_all : List ℕ → List Spec → List (Option ℕ) → Result PortError (List ℕ)
  unfolding choose_auto choose_requested
  choose_all newly_allocated [] overrides = ok []
  choose_all newly_allocated (s ∷ specs) overrides = do
    chosen ← choose newly_allocated (override_of overrides) s.container_port
    rest ← choose_all (newly_allocated ++ chosen ∷ []) specs (overrides_after overrides)
    ok (chosen ∷ rest)

abbrev pub new_row : String → String → Spec → ℕ → PortAllocation
new_row id service_id spec host_port = record {
  id = id;
  service_id = service_id;
  port_name = spec.port_name;
  host_port = host_port;
  container_port = spec.container_port;
  protocol = "tcp";
  is_public = false;
  public_port = none;
  compose_service = none;
}

-- The table, and the ids of the services that it may refer to.
pub record Tables : Type 0 where
  pub services : List String
  pub port_allocations : List PortAllocation

-- `INSERT INTO port_allocations`: `id` and `host_port` are unique, and the service exists.
unfoldable pub insert_port : PortAllocation → Tables → Result PortError (Unit {0}) × Tables
insert_port row t =
    if any (λ old. str_eq old.id row.id || old.host_port == row.host_port) t.port_allocations
      || not (contains_str t.services row.service_id)
    then (err database, t)
    else (ok tt, record t { port_allocations = t.port_allocations ++ row ∷ [] })

abbrev pub add_row :
    PortAllocation
    → Result PortError (List PortAllocation) × Tables
    → Result PortError (List PortAllocation) × Tables
add_row row (ok rows, t) = (ok (row ∷ rows), t)
add_row row (err e, t) = (err e, t)

-- The calls of `new_v4` that are left after the first.
abbrev pub next_ids : (ℕ → String) → ℕ → String
next_ids ids n = ids (suc n)

-- One insert after another; `ids` are the UUIDs that the calls of `new_v4` give. `free[i]` panics where
-- there is no port for a spec.
unfoldable pub insert_all :
    String
    → List Spec
    → List ℕ
    → (ℕ → String)
    → Tables
    → Result PortError (List PortAllocation) × Tables
unfolding insert_port
insert_all service_id [] free ids t = (ok [], t)
insert_all service_id (s ∷ specs) [] ids t = (err index_out_of_bounds, t)
insert_all service_id (s ∷ specs) (p ∷ free) ids t =
    let row = new_row (ids 0) service_id s p in
    let (r, t') = insert_port row t in
    elim r [
      | err e ↦ (err e, t')
      | ok _ ↦ add_row row (insert_all service_id specs free (next_ids ids) t')
    ]

abbrev pub insert_chosen :
    String
    → List Spec
    → (ℕ → String)
    → Tables
    → Result PortError (List ℕ)
    → Result PortError (List PortAllocation) × Tables
unfolding insert_all
insert_chosen service_id specs ids t (err e) = (err e, t)
insert_chosen service_id specs ids t (ok free) = insert_all service_id specs free ids t

abbrev bad_length : List (Option ℕ) → List Spec → Bool
bad_length overrides specs = not (length overrides == 0) && not (length overrides == length specs)

unfoldable pub allocate_ports :
    Request
    → String
    → List Spec
    → List (Option ℕ)
    → (ℕ → String)
    → Tables
    → Result PortError (List PortAllocation) × Tables
unfolding choose_all insert_all
allocate_ports q service_id specs overrides ids t =
    if length specs == 0
    then (ok [], t)
    else if bad_length overrides specs
    then (err overrides_length, t)
    else insert_chosen service_id specs ids t
        (choose_all q (ports_of t.port_allocations) [] specs overrides)

unfoldable pub free_ports : String → Tables → Tables
free_ports service_id t = record t {
  port_allocations = keep (λ r. not (str_eq r.service_id service_id)) t.port_allocations;
}

unfoldable pub set_ports_public : String → Bool → Tables → Tables
set_ports_public service_id is_public t = record t {
  port_allocations =
      update_where (λ r. str_eq r.service_id service_id) (λ r. record r { is_public = is_public })
        t.port_allocations;
}
