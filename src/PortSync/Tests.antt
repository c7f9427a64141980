-- ===== src/PortSync/Tests.antt =====
-- The sync on a database that is exposed beside its loopback port
-- (crates/pier-core/src/docker/port_sync.rs).
use pier.Base.{true, false, none, some, [], ◌∷◌, ◌≡◌, inl, inr, refl}
use pier.Ports.{PortAllocation}
use pier.PortSync.{
  ContainerBinding, ContainerBindings, PortUpdate, container_of, compute_sync_updates,
  apply_updates,
}
use pier.PortSync.Exposure.{
  IsShownPublic, IsPublished, compute_sync_updates-IsShownPublic, compute_sync_updates-IsPublished,
}

abbrev database_row : PortAllocation
database_row = record {
  id = "r";
  service_id = "s";
  port_name = "db";
  host_port = 10000;
  container_port = 5432;
  protocol = "tcp";
  is_public = false;
  public_port = none;
  compose_service = none;
}

abbrev loopback : ContainerBinding
loopback = record { container_port = 5432; host_port = 10000; is_public = false }

abbrev exposed : ContainerBinding
exposed = record { container_port = 5432; host_port = 15432; is_public = true }

abbrev postgres : ContainerBindings
postgres = record { compose_service = some "db"; bindings = loopback ∷ exposed ∷ [] }

abbrev shown : PortUpdate
shown = record { row_id = "r"; new_is_public = true; new_public_port = some 15432 }

updates_test : compute_sync_updates (database_row ∷ []) (postgres ∷ []) ≡ shown ∷ []
unfolding compute_sync_updates
updates_test = refl

settled_test :
    compute_sync_updates (apply_updates (shown ∷ []) (database_row ∷ [])) (postgres ∷ []) ≡ []
unfolding compute_sync_updates apply_updates
settled_test = refl

compute_sync_updates-IsShownPublic_example :
    IsShownPublic
      (database_row ∷ [])
      (postgres ∷ [])
      database_row
      (compute_sync_updates (database_row ∷ []) (postgres ∷ []))
unfolding container_of
compute_sync_updates-IsShownPublic_example =
    compute_sync_updates-IsShownPublic (database_row ∷ []) (postgres ∷ []) database_row postgres
      exposed (inl refl) refl (inr (inl refl)) refl refl refl

compute_sync_updates-IsPublished_example : IsPublished (database_row ∷ []) (postgres ∷ []) shown
unfolding compute_sync_updates
compute_sync_updates-IsPublished_example =
    compute_sync_updates-IsPublished (database_row ∷ []) (postgres ∷ []) shown (inl refl) refl
