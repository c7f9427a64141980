-- ===== src/Ports/Tests.antt =====
-- A host that holds port 8080, and a table in which Pier has given out 5432.
use pier.Base.{
  zero, suc, length, if◌then◌else◌, ◌==◌, ℕ, String, false, some, List, [], ◌∷◌, ◌++◌, ◌≡◌, ◌↔◌,
  refl, inl, ok, err, arith,
}
use pier.Ports.{
  Request, Spec, PortError, Tables, BindOutcome, bound, in_use, choose_all, ports_of, new_row,
  allocate_ports, choose_auto, scan, host_port_free, not_enough_ports,
}
use pier.Ports.Choice.{Choices, choose_all_lem}
use pier.Ports.Insertion.{new_rows, drawn}
use pier.Ports.Contract.{allocate_ports_lem}

abbrev bind : ℕ → BindOutcome
bind p = if p == 8080 then in_use else bound

abbrev request : Request
request = record {
  bind = λ _ p. bind p;
  host_probe = some [];
  start = 8080;
  end = 8090;
  pool_only = false;
}

abbrev web : Spec
web = record { port_name = "web"; container_port = 80 }

abbrev sql : Spec
sql = record { port_name = "sql"; container_port = 5432 }

abbrev redis : Spec
redis = record { port_name = "redis"; container_port = 6379 }

abbrev specs : List Spec
specs = web ∷ sql ∷ redis ∷ []

abbrev tables : Tables
tables = record {
  services = "old" ∷ "new" ∷ [];
  port_allocations = new_row "1" "old" sql 5432 ∷ [];
}

abbrev ports : List ℕ
ports = 8081 ∷ 8082 ∷ 6379 ∷ []

chosen : choose_all request (5432 ∷ []) [] specs [] ≡ ok ports
unfolding choose_all choose_auto scan host_port_free
chosen = refl

exhausted :
    choose_all (record request { end = 8082 }) (5432 ∷ []) [] specs [] ≡ err not_enough_ports
unfolding choose_all choose_auto scan host_port_free
exhausted = refl

choose_all_lem_example :
    (choose_all request (5432 ∷ []) [] specs [] ≡ ok ports)
    ↔ Choices request (5432 ∷ []) [] specs [] ports
choose_all_lem_example = choose_all_lem request (5432 ∷ []) [] specs [] ports

abbrev ids : ℕ → String
ids zero = "2"
ids (suc zero) = "3"
ids (suc (suc n)) = "4"

allocate_ports_lem_example :
    ((e : PortError)
      → choose_all request (ports_of tables.port_allocations) [] specs [] ≡ err e
      → allocate_ports request "new" specs [] ids tables ≡ (err e, tables))
    × ((ps : List ℕ)
        → choose_all request (ports_of tables.port_allocations) [] specs [] ≡ ok ps
        → (allocate_ports request "new" specs [] ids tables ≡ (
          ok (new_rows "new" specs ps (drawn (length specs) ids)),
          record tables {
            port_allocations =
                tables.port_allocations ++ new_rows "new" specs ps (drawn (length specs) ids);
          },
        ))
          × (length (new_rows "new" specs ps (drawn (length specs) ids)) ≡ length specs))
allocate_ports_lem_example =
    allocate_ports_lem request "new" specs [] ids tables (ground arith, tt) refl
      ((refl, refl, (refl, refl, (refl, refl, tt)))) (inl refl)
