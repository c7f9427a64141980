-- ===== src/Ports/Insertion.antt =====
-- The inserts of `allocate_ports` of crates/pier-core/src/db/ports.rs: rows that clash with none of the
-- table are all inserted.
use pier.Base.{
  zero, suc, length, ℕ, ◌<◌, ◌^◌, String, Bool, true, false, ◌||◌, List, [], ◌∷◌, ◌++◌, map, ◌≡◌,
  refl, sym, ap, ◌∙◌, ok, err, arith, contains, contains_str, contains_str-append, IsDistinct, All,
  any, str_eq, eq_iff, ◌==◌,
}
use mathlib.Core.List.{append-nil, append_assoc}
use pier.Db.Rows.{any-append}
use pier.Ports.{Spec, PortAllocation, Tables, new_row, add_row, insert_port, insert_all, next_ids}

-- The stored ports are 16 bits wide.
abbrev pub IsInRange : List PortAllocation → Type 0
IsInRange = All (λ r. r.host_port < 2 ^ 16)

abbrev ids_of : List PortAllocation → List String
ids_of rows = map (λ r. r.id) rows

-- The ids are not in the table, and no two of them are the same.
abbrev pub IsFresh : List PortAllocation → List String → Type 0
IsFresh rows [] = Unit
IsFresh rows (id ∷ ids) =
    (contains_str (ids_of rows) id ≡ false) × (contains_str ids id ≡ false) × IsFresh rows ids

-- The rows of a call: one for each spec.
abbrev pub new_rows : String → List Spec → List ℕ → List String → List PortAllocation
new_rows service_id (s ∷ specs) (p ∷ ps) (id ∷ ids) =
    new_row id service_id s p ∷ new_rows service_id specs ps ids
new_rows service_id specs ps ids = []

abbrev clash : PortAllocation → PortAllocation → Bool
clash row old = str_eq old.id row.id || old.host_port == row.host_port

-- Each row finds no clash among the rows before it.
abbrev pub NoClash : List PortAllocation → List PortAllocation → Type 0
NoClash rows [] = Unit
NoClash rows (r ∷ rs) = (any (clash r) rows ≡ false) × NoClash (rows ++ r ∷ []) rs

insert_port_ok :
    (row : PortAllocation) (t : Tables)
    → any (clash row) t.port_allocations ≡ false
    → contains_str t.services row.service_id ≡ true
    → insert_port row t ≡ (ok tt, record t { port_allocations = t.port_allocations ++ row ∷ [] })
unfolding insert_port
insert_port_ok row t c known = ground (arith, c, known)

-- The first UUIDs.
abbrev pub drawn : ℕ → (ℕ → String) → List String
drawn zero ids = []
drawn (suc n) ids = ids 0 ∷ drawn n (next_ids ids)

insert_all-step :
    (service_id : String) (s : Spec) (specs : List Spec) (p : ℕ) (ps : List ℕ) (ids : ℕ → String)
    (t t' : Tables)
    → insert_port (new_row (ids 0) service_id s p) t ≡ (ok tt, t')
    → insert_all service_id (s ∷ specs) (p ∷ ps) ids t
      ≡ add_row (new_row (ids 0) service_id s p) (insert_all service_id specs ps (next_ids ids) t')
unfolding insert_all
insert_all-step service_id s specs p ps ids t t' e =
    ap
      (λ r. elim r.0 [
        | err x ↦ (err x, r.1)
        | ok _ ↦
            add_row (new_row (ids 0) service_id s p)
              (insert_all service_id specs ps (next_ids ids) r.1)
      ])
      e

pub insert_all_ok :
    (service_id : String) (specs : List Spec) (ps : List ℕ) (ids : ℕ → String) (t : Tables)
    → contains_str t.services service_id ≡ true
    → length ps ≡ length specs
    → NoClash t.port_allocations (new_rows service_id specs ps (drawn (length specs) ids))
    → insert_all service_id specs ps ids t ≡ (
      ok (new_rows service_id specs ps (drawn (length specs) ids)),
      record t {
        port_allocations =
            t.port_allocations ++ new_rows service_id specs ps (drawn (length specs) ids);
      },
    )
unfolding insert_all
insert_all_ok service_id (s ∷ specs) (p ∷ ps) ids t known same (c, cs) =
    let row = new_row (ids 0) service_id s p in
    let t' : Tables = record t { port_allocations = t.port_allocations ++ row ∷ [] } in
    let rows = new_rows service_id specs ps (drawn (length specs) (next_ids ids)) in
    insert_all-step service_id s specs p ps ids t t' (insert_port_ok row t c known)
    ∙ ap (add_row row)
        (insert_all_ok service_id specs ps (next_ids ids) t' known (omega (arith, same)) cs)
    ∙ ap (λ l. (ok (row ∷ rows), record t { port_allocations = l }))
        (append_assoc t.port_allocations (row ∷ []) rows)
insert_all_ok service_id [] ps ids t known same c =
    ap (λ l. (ok [], record t { port_allocations = l })) (sym (append-nil t.port_allocations))
insert_all_ok service_id (s ∷ specs) [] ids t known same c = absurd (omega (arith, same))

pub length-new_rows :
    (service_id : String) (specs : List Spec) (ps : List ℕ) (ids : ℕ → String)
    → length ps ≡ length specs
    → length (new_rows service_id specs ps (drawn (length specs) ids)) ≡ length specs
length-new_rows service_id [] ps ids same = refl
length-new_rows service_id (s ∷ specs) [] ids same = absurd (omega (arith, same))
length-new_rows service_id (s ∷ specs) (p ∷ ps) ids same =
    ap (λ n. suc n) (length-new_rows service_id specs ps (next_ids ids) (omega (arith, same)))

abbrev pub has_port : ℕ → PortAllocation → Bool
has_port p old = old.host_port == p

any-clash :
    (row : PortAllocation) (rows : List PortAllocation)
    → any (has_port row.host_port) rows ≡ false
    → contains_str (ids_of rows) row.id ≡ false
    → any (clash row) rows ≡ false
any-clash row [] p i = refl
any-clash row (x ∷ xs) p i =
    ground (arith, any-clash row xs (ground (arith, p)) (ground (arith, i)), p, i)

ids_of-append :
    (rows : List PortAllocation) (r : PortAllocation)
    → ids_of (rows ++ r ∷ []) ≡ ids_of rows ++ r.id ∷ []
ids_of-append [] r = refl
ids_of-append (x ∷ xs) r = ap (λ l. x.id ∷ l) (ids_of-append xs r)

no_port-append :
    (row : PortAllocation) (rows : List PortAllocation) (ps : List ℕ)
    → contains ps row.host_port ≡ false
    → All (λ p. any (has_port p) rows ≡ false) ps
    → All (λ p. any (has_port p) (rows ++ row ∷ []) ≡ false) ps
no_port-append row rows [] n a = tt
no_port-append row rows (p ∷ ps) n (h, a) = (
  ground (arith, any-append (has_port p) rows (row ∷ []), n, h),
  no_port-append row rows ps (ground (arith, n)) a,
)

IsFresh-append :
    (row : PortAllocation) (rows : List PortAllocation) (ids : List String)
    → contains_str ids row.id ≡ false
    → IsFresh rows ids
    → IsFresh (rows ++ row ∷ []) ids
IsFresh-append row rows [] n f = tt
IsFresh-append row rows (id ∷ ids) n (h, d, f) = (
  ground (
    arith,
    ids_of-append rows row,
    contains_str-append (ids_of rows) (row.id ∷ []) id,
    n,
    h,
    eq_iff row.id id,
    eq_iff id row.id,
  ),
  d,
  IsFresh-append row rows ids (ground (arith, n)) f,
)

pub NoClash-new_rows :
    (service_id : String) (specs : List Spec) (ps : List ℕ) (ids : List String)
    (rows : List PortAllocation)
    → All (λ p. any (has_port p) rows ≡ false) ps
    → IsDistinct ps
    → IsFresh rows ids
    → NoClash rows (new_rows service_id specs ps ids)
NoClash-new_rows service_id (s ∷ specs) (p ∷ ps) (id ∷ ids) rows (h, a) (n, d) (f, g, fs) =
    let row = new_row id service_id s p in
    (
      any-clash row rows h f,
      NoClash-new_rows service_id specs ps ids (rows ++ row ∷ []) (no_port-append row rows ps n a) d
          (IsFresh-append row rows ids g fs),
    )
NoClash-new_rows service_id [] ps ids rows a d f = tt
NoClash-new_rows service_id (s ∷ specs) [] ids rows a d f = tt
NoClash-new_rows service_id (s ∷ specs) (p ∷ ps) [] rows a d f = tt
