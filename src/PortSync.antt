-- ===== src/PortSync.antt =====
-- crates/pier-core/src/docker/port_sync.rs: which rows of port_allocations change so that they agree
-- with what Docker publishes.
mod Candidates
mod Exposure
mod Tests
use pier.Base.{
  ℕ, ◌%◌, ◌^◌, String, Bool, true, false, not, ◌&&◌, ◌||◌, Option, none, some, List, [], ◌∷◌, ◌++◌,
  ◌==◌, if◌then◌else◌, str_eq, any, keep, first, length, update_where, is_some,
}
use pier.Ports.{PortAllocation}

-- What Docker reports of a container; the ports are 16 bits wide.
pub record ContainerBinding : Type 0 where
  pub container_port : ℕ
  pub host_port : ℕ
  pub is_public : Bool

pub record ContainerBindings : Type 0 where
  pub compose_service : Option String
  pub bindings : List ContainerBinding

pub record PortUpdate : Type 0 where
  pub row_id : String
  pub new_is_public : Bool
  pub new_public_port : Option ℕ

abbrev same_text : Option String → Option String → Bool
same_text none none = true
same_text none (some b) = false
same_text (some a) none = false
same_text (some a) (some b) = str_eq a b

abbrev pub same_port : Option ℕ → Option ℕ → Bool
same_port none none = true
same_port none (some b) = false
same_port (some a) none = false
same_port (some a) (some b) = a == b

abbrev pub same_flag : Bool → Bool → Bool
same_flag true b = b
same_flag false b = not b

abbrev pub or_else : Option ContainerBinding → Option ContainerBinding → Option ContainerBinding
or_else none b = b
or_else (some a) b = some a

-- `.next()`
abbrev pub head : List ContainerBinding → Option ContainerBinding
head [] = none
head (b ∷ bs) = some b

-- `p as u16`
abbrev pub as_u16 : Option ℕ → Option ℕ
as_u16 none = none
as_u16 (some p) = some (p % 2 ^ 16)

-- The match on `exact` and `orphan_public`.
abbrev pub choose_binding :
    Option ContainerBinding
    → Option ContainerBinding
    → Option ContainerBinding
    → Option ContainerBinding
choose_binding (some e) (some p) rest = if not e.is_public then some p else some e
choose_binding (some e) none rest = some e
choose_binding none (some p) rest = some p
choose_binding none none rest = rest

abbrev pub new_state : Option ContainerBinding → Option ℕ → Bool × Option ℕ
new_state none cur_public_port = (false, cur_public_port)
new_state (some b) cur_public_port =
    if b.is_public then (true, some b.host_port) else (false, cur_public_port)

abbrev pub row_update : PortAllocation → Bool × Option ℕ → List PortUpdate
row_update alloc (new_is_public, new_public_port) =
    if not (same_flag new_is_public alloc.is_public)
      || not (same_port new_public_port (as_u16 alloc.public_port))
    then record {
      row_id = alloc.id;
      new_is_public = new_is_public;
      new_public_port = new_public_port;
    }
      ∷ []
    else []

module _ (allocations : List PortAllocation) where
  abbrev pub claimed_by_another_row : PortAllocation → ContainerBinding → Bool
  claimed_by_another_row alloc b =
      any (λ other. not (str_eq other.id alloc.id) && other.host_port == b.host_port) allocations

  abbrev pub for_this_port : PortAllocation → List ContainerBinding → List ContainerBinding
  for_this_port alloc bindings = keep (λ b. b.container_port == alloc.container_port) bindings

  abbrev pub is_exact : PortAllocation → ContainerBinding → Bool
  is_exact alloc b =
      same_port (some b.host_port) alloc.public_port || b.host_port == alloc.host_port

  abbrev pub is_orphan_public : PortAllocation → ContainerBinding → Bool
  is_orphan_public alloc b = b.is_public && not (claimed_by_another_row alloc b)

  unfoldable pub binding_of : PortAllocation → List ContainerBinding → Option ContainerBinding
  binding_of alloc bindings =
      let candidates = for_this_port alloc bindings in
      choose_binding (first (is_exact alloc) candidates) (first (is_orphan_public alloc) candidates)
        (or_else (first (λ b. b.is_public) candidates) (head candidates))

  module _ (containers : List ContainerBindings) where
    abbrev degraded_match : Bool
    degraded_match =
        not (any (λ a. is_some a.compose_service) allocations) && length containers == 1

    -- The container of a row.
    unfoldable pub container_of : PortAllocation → Option ContainerBindings
    container_of alloc =
        first (λ c. degraded_match || same_text c.compose_service alloc.compose_service) containers

    abbrev pub row_updates : PortAllocation → Option ContainerBindings → List PortUpdate
    row_updates alloc none = []
    row_updates alloc (some container) =
        row_update alloc
          (new_state (binding_of alloc container.bindings) (as_u16 alloc.public_port))

    unfoldable pub updates_from : List PortAllocation → List PortUpdate
    unfolding container_of binding_of
    updates_from [] = []
    updates_from (alloc ∷ allocs) = row_updates alloc (container_of alloc) ++ updates_from allocs

unfoldable pub compute_sync_updates : List PortAllocation → List ContainerBindings → List PortUpdate
unfolding updates_from
compute_sync_updates allocations containers = updates_from allocations containers allocations

-- The loop of UPDATEs of `sync_ports_from_docker`.
unfoldable pub apply_updates : List PortUpdate → List PortAllocation → List PortAllocation
apply_updates [] rows = rows
apply_updates (u ∷ us) rows = apply_updates us (
    update_where (λ r. str_eq r.id u.row_id)
      (λ r. record r { is_public = u.new_is_public; public_port = u.new_public_port }) rows)
