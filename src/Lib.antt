-- ===== src/Lib.antt =====
-- Pier is a self-hosted platform that deploys services with Docker. This library models the parts of it
-- that decide: who may do what and under which credential, who administers a project, which ports a
-- service gets and which are shown as public, which services are redeployed together, which images are
-- removed, which address a node of the mesh gets, and what the root helper does with the WireGuard
-- configuration.
--
-- The parts, and the code that each models:
--
-- Base        the names that the others share: numbers, Boolean tests, options, lists with their lengths,
--             texts with the operations of `str` (trim, lines, split_once, split_whitespace), results,
--             and `AppError` of crates/pier-core/src/error.rs.
-- Db          the rows of the SQLite tables that the handlers name, crates/pier-core/src/db/schema.rs,
--             and the events of crates/pier-core/src/auth/audit.rs. `Db` is the state of the API.
-- Rbac        crates/pier-core/src/auth/rbac: roles.rs (GlobalRole, ProjectRole), membership.rs
--             (Membership), policy.rs (Policy, with AuthUser of auth/middleware.rs) and guards.rs (Guards,
--             with the identity that the middleware gives to a peer token). Agreement relates them.
-- Api         crates/pier-core/src/api. A handler is a function from the database to a result and a
--             database (Handler); `?` is its bind, and what was written before an error stays written.
--             Members is project_members.rs (add, update_role, remove), Users is users.rs (invite, update,
--             remove, change_role). Both call the guards of Rbac and append to the audit log.
-- NetHelper   crates/pier-net-helper/src. Protocol is protocol.rs (the whitelist of directives and the
--             injection of the private key), Helper is main.rs (one function for each operation, and
--             `fire`, the waking of the task of the dead-man's switch).
-- Mesh        crates/pier-core/src/network/wireguard.rs, network/address.rs and the handlers of
--             api/network.rs. Ipv4 and Subnet are the addresses (an address is its `u32`), Render is
--             render_wg_conf, Rows the tables with their queries, Plan the handlers put_mesh and
--             enable_mesh, Configure the handlers configure_mesh and disable_mesh with the answers of the
--             nodes as a parameter (`Dispatch`), Pairing the handler `propose` of api/peer_mesh.rs, with
--             the nodes of other cores and the row of the initiating core as arguments. What Render writes
--             is what NetHelper reads. Invariant has the steps that write the tables, `propose` among them
--             where the proposal is sound (the code does not check it), and what every history keeps.
-- Auth        crates/pier-core/src/auth/middleware.rs and api_token.rs. Headers is what a request carries,
--             Tables are the rows, Require is require_auth with one function for each branch, and the
--             sweep session_gc_once; Tokens is store and revoke. sha256, bcrypt, base64 and the encoding of
--             URLs are the fields of `Libraries`. Credential describes the ways in independently.
-- ImageGc     crates/pier-core/src/docker/image_gc.rs. Compose has the two scanners of compose files, Protected
--             the names that are protected, Scan the scan and the removal of the orphans, with Docker as a
--             record of functions on its state. Written and Declared describe, by the lines of a compose
--             file, how an image is written there and how a service stands there; Needed and Free what a
--             service needs and what an orphan is. `to_lowercase` is an argument.
-- Ports       crates/pier-core/src/db/ports.rs: allocate_ports with its choice of a port for each spec. The
--             UUIDs are a sequence without end, one for each insert. The binary search in the sorted ports
--             is written as membership, which is the same for stored ports of 16 bits.
-- PortSync    crates/pier-core/src/docker/port_sync.rs: compute_sync_updates, from the rows of Ports and the
--             bindings that Docker reports, and the loop that writes its updates.
-- Deps        crates/pier-core/src/deploy/deps.rs: expand_with_dependents.
-- Tasks       crates/pier-core/src/tasks: the writes of models.rs to `task_runs`, and those of start_run, the
--             poller and cancel_run of executor.rs. Each write is one step; Steps are the sequences of them.
-- Alerts      crates/pier-core/src/alerts: compare and evaluate of evaluator.rs and process_rule of mod.rs with
--             what it writes. The readings, f64 in the code, are of an abstract type (`Readings`).
-- PartialToken  crates/pier-core/src/auth/partial_token.rs: the store of the tokens between the password and
--             the second factor.
-- RecoveryCodes  crates/pier-core/src/auth/totp.rs: hash_recovery_code and consume_recovery_code. SHA-256 and JSON
--             are the fields of its `Libraries`.
--
-- How the code is translated. An SQL statement is a function on the rows of its tables, with the UNIQUE
-- constraints and the foreign keys that the schema gives them; an upsert or a DELETE is a function on
-- the list of rows. The clock, fresh UUIDs, tokens and their hashes are arguments. What Docker, the host
-- or the commands wg, wg-quick and ip answer is a parameter (`Wireguard` in NetHelper, `Host` in Ports).
-- Ids are strings; e-mail addresses and texts that the code scans are lists of code points. Numbers are
-- natural numbers; bit masks of an address are written as a division and a product by the size of the
-- block; a port that is read `as u16` is reduced modulo 2 ^ 16.
--
-- A handler holds the database lock while it decides and writes; where the code lets the lock go in
-- between, as `add` does between its check and its insert, the model runs the handler without others in
-- between. The operations of the helper run concurrently in the code: `op_apply` is also given in the
-- three parts between which others may run (apply_begin, apply_sync, apply_arm).
--
-- Loops. The scan of the port pool has one unit of fuel for each port of `[start, end)`, and stops at `end`
-- as the code does. The worklist of Deps has one turn for each seed and each edge: an id enters the
-- queue as a seed, or once as the dependent of an edge. The loop of
-- allocate_ip has 2 ^ 32 units: its iterator yields each `u32` once at most. A printed number has at
-- most 20 digits. All other loops are structural.
--
-- Not modelled: failures of SQLite and of the file system other than a missing file, a poisoned lock, the
-- texts of error messages beyond their keys, JSON, the handlers that only read, the
-- initiator's side of the pairing of two meshes, and the keys of the inserts to task_runs,
-- which are fresh UUIDs. The parts of the program that are not listed above (deployment, proxy, catalog,
-- backups, pages) are not modelled either.
pub mod Base
pub mod Db
pub mod Rbac
pub mod Api
pub mod NetHelper
pub mod Mesh
pub mod Auth
pub mod ImageGc
pub mod Ports
pub mod PortSync
pub mod Deps
pub mod Tasks
pub mod Alerts
pub mod PartialToken
pub mod RecoveryCodes
