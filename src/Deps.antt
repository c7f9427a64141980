-- ===== src/Deps.antt =====
-- crates/pier-core/src/deploy/deps.rs: the services to redeploy with the ones that changed.
pub mod Sets
pub mod Closure
pub mod Total
mod Tests
use pier.Base.{
  ℕ, zero, suc, ◌+◌, String, Bool, true, false, Option, none, some, List, [], ◌∷◌, ◌++◌, map, ltb,
  if◌then◌else◌, str_eq, keep, contains_str, length,
}

-- a row of `service_dependencies`
pub record Dependency : Type 0 where
  pub service_id : String
  pub depends_on_service_id : String

module _ (edges : List Dependency) where
  -- `SELECT service_id FROM service_dependencies WHERE depends_on_service_id = ?1`
  abbrev pub dependents : String → List String
  dependents current =
      map (λ e. e.service_id) (keep (λ e. str_eq e.depends_on_service_id current) edges)

-- The ids for which `visited.insert` answers true, one after another. The set is a list without
-- repetitions.
unfoldable pub newly_seen : List String → List String → List String
newly_seen visited [] = []
newly_seen visited (dep ∷ deps) =
    let rest = newly_seen (visited ++ dep ∷ []) deps in
    if contains_str visited dep then newly_seen visited deps else dep ∷ rest

module _ (edges : List Dependency) (max : Option ℕ) where
  -- `visited.len() > max`, where `max` may be unknown
  abbrev pub over : List String → Bool
  over visited = elim max [ none ↦ false | some m ↦ ltb m (length visited) ]

  -- `while let Some(current) = queue.pop_front()`; no answer means that the fuel is used up
  unfoldable pub visit : ℕ → List String → List String → Option (List String)
  unfolding newly_seen
  visit fuel [] visited = some visited
  visit zero (current ∷ queue) visited = none
  visit (suc fuel) (current ∷ queue) visited =
      let seen = newly_seen visited (dependents edges current) in
      let rest = visit fuel (queue ++ seen) (visited ++ seen) in
      if over visited then some visited else rest

-- Each turn takes one id from the queue, and each id enters it as a seed or as the dependent of an edge.
unfoldable pub expand_with_dependents :
    List Dependency → Option ℕ → List String → Option (List String)
unfolding visit
expand_with_dependents edges max seeds =
    visit edges max (length seeds + length edges) seeds (newly_seen [] seeds)
