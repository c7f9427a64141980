-- ===== src/PortSync/Candidates.antt =====
-- Which binding `compute_sync_updates` takes for a row (crates/pier-core/src/docker/port_sync.rs).
use pier.Base.{
  Bool, true, false, not, Option, none, some, List, [], ◌∷◌, ◌==◌, first, IsRow, first-IsRow,
  first_found, keep-IsRow, ◌≡◌, inl, inr, refl, arith, Bool-cases, both_branches,
}
use pier.Ports.{PortAllocation}
use pier.PortSync.{
  ContainerBinding, choose_binding, claimed_by_another_row, for_this_port, is_orphan_public,
  binding_of, or_else, head, is_exact,
}

-- An orphan wins over a private binding.
choose_public :
    (exact rest : Option ContainerBinding) (p : ContainerBinding)
    → p.is_public ≡ true
    → (b : ContainerBinding) × (choose_binding exact (some p) rest ≡ some b) × (b.is_public ≡ true)
choose_public none rest p h = (p, refl, h)
choose_public (some e) rest p h = elim (Bool-cases e.is_public) [
  | inl public ↦ (e, rw public refl, public)
  | inr private ↦ (p, rw private refl, h)
]

-- What is chosen is one of the candidates.
module _ (P : ContainerBinding → Type 0) where
  abbrev AllOf : Option ContainerBinding → Type 0
  AllOf o = (b : ContainerBinding) → o ≡ some b → P b

  choose_binding-AllOf :
      (exact orphan rest : Option ContainerBinding)
      → AllOf exact
      → AllOf orphan
      → AllOf rest
      → AllOf (choose_binding exact orphan rest)
  choose_binding-AllOf (some e) (some p) rest h k l =
      both_branches AllOf (not e.is_public) (some p) (some e) (λ _. k) (λ _. h)
  choose_binding-AllOf (some e) none rest h k l = h
  choose_binding-AllOf none (some p) rest h k l = k
  choose_binding-AllOf none none rest h k l = l

  or_else-AllOf : (a b : Option ContainerBinding) → AllOf a → AllOf b → AllOf (or_else a b)
  or_else-AllOf none b h k = k
  or_else-AllOf (some a) b h k = h

head-IsRow : (bs : List ContainerBinding) (b : ContainerBinding) → head bs ≡ some b → IsRow b bs
head-IsRow [] b h = cc
head-IsRow (x ∷ bs) b h = inl (cc)

first-candidate :
    (p : ContainerBinding → Bool) (bs : List ContainerBinding) (b : ContainerBinding)
    → first p bs ≡ some b
    → IsRow b bs
first-candidate p bs b h = (first-IsRow p bs b h).0

module _ (allocations : List PortAllocation) where
  pub binding_of-candidate :
      (alloc : PortAllocation) (bindings : List ContainerBinding) (b : ContainerBinding)
      → binding_of allocations alloc bindings ≡ some b
      → IsRow b (for_this_port allocations alloc bindings)
  unfolding binding_of
  binding_of-candidate alloc bindings b h =
      let candidates = for_this_port allocations alloc bindings in
      choose_binding-AllOf (λ x. IsRow x candidates) (first (is_exact allocations alloc) candidates)
        (first (is_orphan_public allocations alloc) candidates)
        (or_else (first (λ y. y.is_public) candidates) (head candidates))
        (first-candidate (is_exact allocations alloc) candidates)
        (first-candidate (is_orphan_public allocations alloc) candidates)
        (or_else-AllOf (λ x. IsRow x candidates) (first (λ y. y.is_public) candidates)
          (head candidates) (first-candidate (λ y. y.is_public) candidates) (head-IsRow candidates))
        b h

  pub binding_of-public :
      (alloc : PortAllocation) (bindings : List ContainerBinding) (b : ContainerBinding)
      → IsRow b bindings
      → b.container_port ≡ alloc.container_port
      → b.is_public ≡ true
      → claimed_by_another_row allocations alloc b ≡ false
      → (x : ContainerBinding) × (binding_of allocations alloc bindings ≡ some x)
        × (x.is_public ≡ true)
  unfolding binding_of
  binding_of-public alloc bindings b r port public free =
      let candidates = for_this_port allocations alloc bindings in
      let here =
        keep-IsRow (λ x. x.container_port == alloc.container_port) b bindings r
          (ground (arith, port)) in
      let (p, found) =
        first_found (is_orphan_public allocations alloc) b candidates here
          (ground (arith, public, free)) in
      let (_, orphan) = first-IsRow (is_orphan_public allocations alloc) candidates p found in
      let (x, e, q) =
        choose_public (first (is_exact allocations alloc) candidates)
          (or_else (first (λ y. y.is_public) candidates) (head candidates)) p
          (ground (arith, orphan)) in
      (x, rw found e, q)
