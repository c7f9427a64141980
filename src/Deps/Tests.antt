-- ===== src/Deps/Tests.antt =====
-- A cycle of three services and one that nothing reaches.
use pier.Base.{String, true, some, List, [], ◌∷◌, ◌≡◌, ◌↔◌, refl, contains_str, arith}
use pier.Deps.{Dependency, expand_with_dependents, visit, newly_seen}
use pier.Deps.Sets.{IsDistinctIds, IsSubset}
use pier.Deps.Closure.{IsAffected}
use pier.Deps.Total.{expand_total, expand_exact}

abbrev on : String → String → Dependency
on a b = record { service_id = a; depends_on_service_id = b }

abbrev edges : List Dependency
edges = on "a" "b" ∷ on "b" "c" ∷ on "c" "a" ∷ on "a" "d" ∷ []

abbrev services : List String
services = "a" ∷ "b" ∷ "c" ∷ "d" ∷ []

expanded : expand_with_dependents edges (some 4) ("b" ∷ []) ≡ some ("b" ∷ "a" ∷ "c" ∷ [])
unfolding expand_with_dependents visit newly_seen
expanded = refl

expand_total_example :
    (r : List String) × (expand_with_dependents edges (some 4) ("b" ∷ []) ≡ some r)
    × IsDistinctIds r
    × IsSubset ("b" ∷ []) r
    × ((x : String) → contains_str r x ≡ true → IsAffected edges ("b" ∷ []) x)
expand_total_example = expand_total edges (some 4) ("b" ∷ [])

expand_exact_example :
    (contains_str ("b" ∷ "a" ∷ "c" ∷ []) "d" ≡ true) ↔ IsAffected edges ("b" ∷ []) "d"
expand_exact_example =
    expand_exact services edges ("b" ∷ []) ("b" ∷ "a" ∷ "c" ∷ []) (λ x h. ground (arith, h))
      (λ x h. ground (arith, h)) expanded "d"
