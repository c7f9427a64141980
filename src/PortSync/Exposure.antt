-- ===== src/PortSync/Exposure.antt =====
-- What a sync of crates/pier-core/src/docker/port_sync.rs says of public ports.
use pier.Base.{
  ℕ, Bool, true, false, not, ◌||◌, Option, some, List, [], ◌∷◌, ◌==◌, if◌then◌else◌, IsRow,
  kept-IsRow, append-IsRow, append-IsRow-left, append-IsRow-right, ◌≡◌, ◌⊎◌, inl, inr, refl, ap,
  arith, Bool-cases, Option-cases, both_branches, subst,
}
use pier.Ports.{PortAllocation}
use pier.PortSync.{
  ContainerBinding, ContainerBindings, PortUpdate, as_u16, new_state, row_update,
  claimed_by_another_row, binding_of, container_of, row_updates, updates_from, compute_sync_updates,
  same_flag, same_port,
}
use pier.PortSync.Candidates.{binding_of-candidate, binding_of-public}

module _ (allocations : List PortAllocation) (containers : List ContainerBindings) where
  -- The row is public already, or an update makes it so.
  abbrev pub IsShownPublic : PortAllocation → List PortUpdate → Type 0
  IsShownPublic alloc updates =
      (alloc.is_public ≡ true)
      ⊎ ((u : PortUpdate) × IsRow u updates × (u.row_id ≡ alloc.id) × (u.new_is_public ≡ true))

  row_update-IsShownPublic :
      (alloc : PortAllocation) (port : Option ℕ)
      → IsShownPublic alloc (row_update alloc (true, port))
  row_update-IsShownPublic alloc port = elim (Bool-cases alloc.is_public) [
    | inl public ↦ inl public
    | inr private ↦ inr (
      record { row_id = alloc.id; new_is_public = true; new_public_port = port },
      rw private (inl refl),
      refl,
      refl,
    )
  ]

  own_updates : PortAllocation → List PortUpdate
  own_updates alloc =
      row_updates allocations containers alloc (container_of allocations containers alloc)

  own_updates-IsRow :
      (alloc : PortAllocation) (u : PortUpdate) (rows : List PortAllocation)
      → IsRow alloc rows
      → IsRow u (own_updates alloc)
      → IsRow u (updates_from allocations containers rows)
  unfolding updates_from own_updates
  own_updates-IsRow alloc u [] r h = absurd r
  own_updates-IsRow alloc u (x ∷ xs) r h =
      let mine = own_updates x in
      let others = updates_from allocations containers xs in
      elim r [
        | inl same ↦ append-IsRow-left u mine others (subst (λ z. IsRow u (own_updates z)) same h)
        | inr later ↦ append-IsRow-right u mine others (own_updates-IsRow alloc u xs later h)
      ]

  updates_from-own :
      (u : PortUpdate) (rows : List PortAllocation)
      → IsRow u (updates_from allocations containers rows)
      → (alloc : PortAllocation) × IsRow alloc rows × IsRow u (own_updates alloc)
  unfolding updates_from own_updates
  updates_from-own u [] r = absurd r
  updates_from-own u (x ∷ xs) r =
      elim (append-IsRow u (own_updates x) (updates_from allocations containers xs) r) [
        | inl here ↦ (x, inl refl, here)
        | inr there ↦ let (a, row, h) = updates_from-own u xs there in (a, inr row, h)
      ]

  -- Where a container of the row publishes the row's container port on every interface, at a host port
  -- that no other row has as its own: the row is public already, or a sync makes it public.
  pub compute_sync_updates-IsShownPublic :
      (alloc : PortAllocation) (c : ContainerBindings) (b : ContainerBinding)
      → IsRow alloc allocations
      → container_of allocations containers alloc ≡ some c
      → IsRow b c.bindings
      → b.container_port ≡ alloc.container_port
      → b.is_public ≡ true
      → claimed_by_another_row allocations alloc b ≡ false
      → IsShownPublic alloc (compute_sync_updates allocations containers)
  unfolding compute_sync_updates
  compute_sync_updates-IsShownPublic alloc c b row e r port public free =
      let (x, chosen, q) = binding_of-public allocations alloc c.bindings b r port public free in
      let mine : IsShownPublic alloc (own_updates alloc) =
        unfold own_updates in
        rw e (rw chosen (rw q (row_update-IsShownPublic alloc (some x.host_port)))) in
      elim mine [
        | inl shown ↦ inl shown
        | inr (u, ru, same, p) ↦ inr (u, own_updates-IsRow alloc u allocations row ru, same, p)
      ]

  -- Docker publishes the port of the row on every interface, at the host's port of the update.
  pub record IsPublished (u : PortUpdate) : Type 0 where
    pub alloc : PortAllocation
    pub row : IsRow alloc allocations
    pub same_row : u.row_id ≡ alloc.id
    pub container : ContainerBindings
    pub listed : container_of allocations containers alloc ≡ some container
    pub binding : ContainerBinding
    pub bound : IsRow binding container.bindings
    pub port : binding.container_port ≡ alloc.container_port
    pub public : binding.is_public ≡ true
    pub reported : u.new_public_port ≡ some binding.host_port

  row_update-fields :
      (alloc : PortAllocation) (shown : Bool) (port : Option ℕ) (u : PortUpdate)
      → IsRow u (row_update alloc (shown, port))
      → u ≡ record { row_id = alloc.id; new_is_public = shown; new_public_port = port }
  row_update-fields alloc shown port u =
      both_branches
        (λ us.
          IsRow u us
          → u ≡ record { row_id = alloc.id; new_is_public = shown; new_public_port = port })
        (not (same_flag shown alloc.is_public) || not (same_port port (as_u16 alloc.public_port)))
        (record { row_id = alloc.id; new_is_public = shown; new_public_port = port } ∷ []) []
        (λ _ r. elim r [ inl same ↦ same | inr later ↦ absurd later ]) (λ _ r. absurd r)

  bound_updates-IsPublished :
      (alloc : PortAllocation) (c : ContainerBindings) (u : PortUpdate)
      → IsRow alloc allocations
      → container_of allocations containers alloc ≡ some c
      → IsRow u (row_updates allocations containers alloc (some c))
      → u.new_is_public ≡ true
      → IsPublished u
  bound_updates-IsPublished alloc c u row listed r p =
      let cur = as_u16 alloc.public_port in
      let found : Option ContainerBinding → Type 0 =
        λ o. IsRow u (row_update alloc (new_state o cur)) in
      elim (Option-cases (binding_of allocations alloc c.bindings)) [
        | inl missing ↦
            let same = row_update-fields alloc false cur u (subst found missing r) in
            absurd (ground (arith, p, ap (λ z. PortUpdate.new_is_public z) same))
        | inr (b, chosen) ↦
            let here = subst found chosen r in
            elim (Bool-cases b.is_public) [
              | inl public ↦
                  let same = row_update-fields alloc true (some b.host_port) u (
                    subst
                      (λ z.
                        IsRow u
                          (row_update alloc (if z then (true, some b.host_port) else (false, cur))))
                      public here) in
                  let (bound, port) =
                    kept-IsRow (λ x. x.container_port == alloc.container_port) b c.bindings
                      (binding_of-candidate allocations alloc c.bindings b chosen) in
                  record {
                    alloc = alloc;
                    row = row;
                    same_row = ap (λ z. PortUpdate.row_id z) same;
                    container = c;
                    listed = listed;
                    binding = b;
                    bound = bound;
                    port = ground (arith, port);
                    public = public;
                    reported = ap (λ z. PortUpdate.new_public_port z) same;
                  }
              | inr private ↦
                  let same = row_update-fields alloc false cur u (
                    subst
                      (λ z.
                        IsRow u
                          (row_update alloc (if z then (true, some b.host_port) else (false, cur))))
                      private here) in
                  absurd (ground (arith, p, ap (λ z. PortUpdate.new_is_public z) same))
            ]
      ]

  own_updates-IsPublished :
      (alloc : PortAllocation) (u : PortUpdate)
      → IsRow alloc allocations
      → IsRow u (own_updates alloc)
      → u.new_is_public ≡ true
      → IsPublished u
  unfolding own_updates
  own_updates-IsPublished alloc u row r p =
      elim (Option-cases (container_of allocations containers alloc)) [
        | inl missing ↦
            absurd (subst (λ o. IsRow u (row_updates allocations containers alloc o)) missing r)
        | inr (c, listed) ↦
            bound_updates-IsPublished alloc c u row listed
              (subst (λ o. IsRow u (row_updates allocations containers alloc o)) listed r) p
      ]

  -- An update whose new state is public is of a listed row, and the container of that row publishes the
  -- row's container port on every interface, at the host port that the update reports.
  pub compute_sync_updates-IsPublished :
      (u : PortUpdate)
      → IsRow u (compute_sync_updates allocations containers)
      → u.new_is_public ≡ true
      → IsPublished u
  unfolding compute_sync_updates
  compute_sync_updates-IsPublished u r p =
      let (alloc, row, mine) = updates_from-own u allocations r in
      own_updates-IsPublished alloc u row mine p
