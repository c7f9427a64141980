-- ===== src/Ports/Contract.antt =====
-- What a caller of `allocate_ports` of crates/pier-core/src/db/ports.rs may rely on.
use pier.Base.{
  suc, ℕ, ◌≤◌, String, true, false, Option, none, some, List, [], ◌∷◌, ◌++◌, ◌≡◌, refl, sym, ap,
  ◌∙◌, Result, ok, err, arith, contains, contains-append, contains_str, IsDistinct, All, any, ◌==◌,
  length, ◌⊎◌, inl, inr,
}
use mathlib.Core.List.{append-nil}
use pier.Ports.{
  Request, Spec, PortError, PortAllocation, Tables, is_free, taken_on_host, choose_all, ports_of,
  allocate_ports, insert_chosen, taken_by_pier, override_of, overrides_after, choose_auto,
  choose_requested,
}
use pier.Ports.Choice.{Choices, IsChoice, choose_all_lem, done, next, requested, standard, pool}
use pier.Ports.Insertion.{
  IsInRange, IsFresh, new_rows, insert_all_ok, has_port, NoClash-new_rows, drawn, length-new_rows,
}

module _ (q : Request) (all_used : List ℕ) where
  IsChoice-free :
      (newly : List ℕ) (o : Option ℕ) (std r : ℕ)
      → IsChoice q all_used newly o std r
      → is_free q all_used newly r ≡ true
  IsChoice-free newly o std r (requested _ _ f) = f
  IsChoice-free newly o std r (standard _ h) = ground (arith, h)
  IsChoice-free newly o std r (pool _ _ h l) = l.2

  free_before :
      (newly : List ℕ) (r x : ℕ)
      → is_free q all_used (newly ++ r ∷ []) x ≡ true
      → (is_free q all_used newly x ≡ true) × (x == r ≡ false)
  free_before newly r x h = ground (arith, contains-append newly (r ∷ []) x)

  frees_before :
      (newly : List ℕ) (r : ℕ) (xs : List ℕ)
      → All (λ x. is_free q all_used (newly ++ r ∷ []) x ≡ true) xs
      → All (λ x. is_free q all_used newly x ≡ true) xs × (contains xs r ≡ false)
  frees_before newly r [] a = (tt, refl)
  frees_before newly r (x ∷ xs) (h, a) =
      let (f, n) = free_before newly r x h in
      let (fs, ns) = frees_before newly r xs a in ((f, fs), ground (arith, n, ns))

  Choices-free :
      (newly : List ℕ) (specs : List Spec) (os : List (Option ℕ)) (rs : List ℕ)
      → Choices q all_used newly specs os rs
      → All (λ r. is_free q all_used newly r ≡ true) rs × IsDistinct rs
  Choices-free newly specs os rs (done _ _) = (tt, tt)
  Choices-free newly specs os rs (next _ s ss _ r rest c cs) =
      let (a, d) = Choices-free (newly ++ r ∷ []) ss (overrides_after q all_used os) rest cs in
      let (fs, n) = frees_before newly r rest a in
      ((IsChoice-free newly (override_of q all_used os) s.container_port r c, fs), (n, d))

  Choices-length :
      (newly : List ℕ) (specs : List Spec) (os : List (Option ℕ)) (rs : List ℕ)
      → Choices q all_used newly specs os rs
      → length rs ≡ length specs
  Choices-length newly specs os rs (done _ _) = refl
  Choices-length newly specs os rs (next _ s ss _ r rest c cs) =
      ap (λ n. suc n) (Choices-length (newly ++ r ∷ []) ss (overrides_after q all_used os) rest cs)

  unused :
      (rs : List ℕ)
      → All (λ r. is_free q all_used [] r ≡ true) rs
      → All (λ r. (contains all_used r ≡ false) × (taken_on_host q all_used r ≡ false)) rs
  unused [] a = tt
  unused (r ∷ rs) (f, a) = (ground (arith, f), unused rs a)

-- The ports that a call chooses are distinct, no allocation of Pier has one of them, and the host
-- holds none of them, up to the exempt ones and if it is asked at all.
pub choose_all_free :
    (q : Request) (all_used : List ℕ) (specs : List Spec) (overrides : List (Option ℕ))
    (rs : List ℕ)
    → choose_all q all_used [] specs overrides ≡ ok rs
    → IsDistinct rs
      × All (λ r. (contains all_used r ≡ false) × (taken_on_host q all_used r ≡ false)) rs
choose_all_free q all_used specs overrides rs e =
    let (a, d) =
      Choices-free q all_used [] specs overrides rs
        ((choose_all_lem q all_used [] specs overrides rs).0 e) in
    (d, unused q all_used rs a)

no_port :
    (rows : List PortAllocation) (p : ℕ)
    → IsInRange rows
    → contains (ports_of rows) p ≡ false
    → any (has_port p) rows ≡ false
no_port [] p a c = refl
no_port (x ∷ xs) p (h, a) c = ground (arith, no_port xs p a (ground (arith, c)), c)

no_ports :
    (q : Request) (rows : List PortAllocation) (ps : List ℕ)
    → IsInRange rows
    → All
        (λ r. (contains (ports_of rows) r ≡ false) × (taken_on_host q (ports_of rows) r ≡ false))
        ps
    → All (λ p. any (has_port p) rows ≡ false) ps
no_ports q rows [] a c = tt
no_ports q rows (p ∷ ps) a ((h, _), c) = (no_port rows p a h, no_ports q rows ps a c)

inserts_chosen :
    (q : Request) (service_id : String) (s : Spec) (specs : List Spec) (overrides : List (Option ℕ))
    (ids : ℕ → String) (t : Tables) (r : Result PortError (List ℕ))
    → (overrides ≡ []) ⊎ (length overrides ≡ length (s ∷ specs))
    → choose_all q (ports_of t.port_allocations) [] (s ∷ specs) overrides ≡ r
    → allocate_ports q service_id (s ∷ specs) overrides ids t
      ≡ insert_chosen service_id (s ∷ specs) ids t r
unfolding allocate_ports
inserts_chosen q service_id s specs overrides ids t r (inl e) h = ground (arith, e, h)
inserts_chosen q service_id s specs overrides ids t r (inr e) h = ground (arith, e, h)

-- If the stored ports are 16 bits wide, the service exists, the UUIDs drawn are fresh, and there are no
-- overrides or one for each spec, then `allocate_ports` fails only if the choice of the ports fails, and
-- with the same error and no row written. Otherwise it answers one row for each spec, with the ports
-- chosen, and appends exactly these rows to the table: no insert meets a port or an id that is taken.
pub allocate_ports_lem :
    (q : Request) (service_id : String) (specs : List Spec) (overrides : List (Option ℕ))
    (ids : ℕ → String) (t : Tables)
    → IsInRange t.port_allocations
    → contains_str t.services service_id ≡ true
    → IsFresh t.port_allocations (drawn (length specs) ids)
    → (overrides ≡ []) ⊎ (length overrides ≡ length specs)
    → ((e : PortError)
        → choose_all q (ports_of t.port_allocations) [] specs overrides ≡ err e
        → allocate_ports q service_id specs overrides ids t ≡ (err e, t))
      × ((ps : List ℕ)
          → choose_all q (ports_of t.port_allocations) [] specs overrides ≡ ok ps
          → (allocate_ports q service_id specs overrides ids t ≡ (
            ok (new_rows service_id specs ps (drawn (length specs) ids)),
            record t {
              port_allocations =
                  t.port_allocations ++ new_rows service_id specs ps (drawn (length specs) ids);
            },
          ))
            × (length (new_rows service_id specs ps (drawn (length specs) ids)) ≡ length specs))
unfolding allocate_ports choose_all
allocate_ports_lem q service_id [] overrides ids t range known fresh lengths = (
  λ e h. cc,
  λ ps h. (
    ap (λ l. (ok [], record t { port_allocations = l })) (sym (append-nil t.port_allocations)),
    refl,
  ),
)
allocate_ports_lem q service_id (s ∷ specs) overrides ids t range known fresh lengths = (
  λ e h. inserts_chosen q service_id s specs overrides ids t (err e) lengths h,
  λ ps h.
      let used = ports_of t.port_allocations in
      let (d, a) = choose_all_free q used (s ∷ specs) overrides ps h in
      let same =
        Choices-length q used [] (s ∷ specs) overrides ps
          ((choose_all_lem q used [] (s ∷ specs) overrides ps).0 h) in
      (
        inserts_chosen q service_id s specs overrides ids t (ok ps) lengths h
            ∙ insert_all_ok service_id (s ∷ specs) ps ids t known same (
                NoClash-new_rows service_id (s ∷ specs) ps (drawn (length (s ∷ specs)) ids)
                  t.port_allocations (no_ports q t.port_allocations ps range a) d fresh),
        length-new_rows service_id (s ∷ specs) ps ids same,
      ),
)

-- Two specs of a call that is not restricted to the pool: if the first has no override and a free container
-- port of at least 1024, and the override of the second asks for that port, then the call fails.
pub override_stolen :
    (q : Request) (all_used : List ℕ) (first second : Spec)
    → q.pool_only ≡ false
    → 1024 ≤ first.container_port
    → is_free q all_used [] first.container_port ≡ true
    → choose_all q all_used [] (first ∷ second ∷ []) (none ∷ some first.container_port ∷ [])
      ≡ err taken_by_pier
unfolding choose_all choose_auto choose_requested
override_stolen q all_used first second pool_only big free = ground arith
