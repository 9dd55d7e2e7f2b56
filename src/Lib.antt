-- ===== src/Lib.antt =====
-- A verification library for the core of aipcs-mcp: the manifest, its relational shape, the
-- lifecycle contract, the registry that admits and completes lifecycle requests, and the coordinator
-- that carries them out.
--
-- The parts, from the bottom up:
--
-- Prelude (lists, texts, numbers, results). A Python text is the list of its code points. An
-- exception is the error of a `Result`; a validator that raises is a Boolean test.
--
-- Cycle: `_has_directed_cycle` of src/aipcs_mcp/relational.py, a recursive depth-first search
-- with the sets `active` and `complete`. The recursion is on fuel, one more than the number of
-- nodes: a call below another has one node more in `active`. Running out is an outcome of its own.
-- The manifest's search of the same name is this function on the adjacency of its edges.
--
-- Manifest: src/aipcs_mcp/manifest_v2.py and the tests of src/aipcs_mcp/numeric_domain.py. A
-- manifest is a record of what pydantic has parsed, `model_validate` is the second validation that
-- the callers run on a dump of a manifest: every text is stripped, then every validator runs, and the
-- conversions of JSON are the identity. The numbers 0.0 and -0.0 are one value of the model. Detached
-- and Acyclic have the theorems.
--
-- Relational: src/aipcs_mcp/relational.py. Data has the dataclasses, Shape their checks and
-- `_validate_specification_shape`, Compile `compile_manifest`, Additions `_expected_additions`,
-- Metadata and Classify `classify_transition` with its helpers. A set of names is a list without
-- repetitions, and a dictionary keeps the last item of a key. Acyclic, Extension and Transition
-- have the theorems.
--
-- Platform: what the program takes from pydantic (the removal of white space), hashlib with json
-- (the digest of a payload), uuid and the Unicode database, as a record of functions. The theorems
-- that rely on it say so: the removal is idempotent, a digest does not map two given payloads to
-- one text, and the digest of a request has 64 hexadecimal digits.
--
-- Lifecycle: src/aipcs_mcp/lifecycle.py. Vocabulary has the enumerations and the errors, one
-- constructor for each message; Command the requests, Intent the intent with its phases, Claim the
-- claims and admissions, Observation the two observations and Plan `plan_recovery`. Recovery,
-- Planning, Intents and Fingerprints have the theorems. A service id is the number of its UUID; zero
-- stands for the nil UUID, which is refused.
--
-- Registry: the lifecycle operations of src/aipcs_mcp/storage/sqlite/uow.py, with the models of
-- src/aipcs_mcp/application/models.py and the checks of src/aipcs_mcp/storage/codecs.py. The tables
-- are lists of rows (Tables), a stored claim is read by `decode_intent` (Claims), and Admit has
-- `resolve_or_admit`. Every exception inside an operation is the one error that `_bounded_uow` makes
-- of it, and a failed operation leaves no state, since its transaction is rolled back. `insert_claim`
-- tests the constraints of the claim table that src/aipcs_mcp/storage/sqlite/migrations.py declares:
-- its CHECKs (Tables/Rows), its primary key and the unique index on the active claims of a service;
-- the column `created_via` is the one of the intent's document. An update of a claim keeps the
-- columns that they are about, or sets them together. Completion has the completions and the
-- preconditions of a finalization, Finalize `finalize_completed` and `finalize_recovery_required`
-- with the updates of the claim, service, identity and audit rows, Recovery `recovery_state`.
-- Exclusive and Healthy have the invariants of the tables; Admitted, Replay, Preparable, Columns,
-- Total, Admits, Updates, Terminal, Finalized, Exclusion, Decoded, PreparedRow, Refinalized and
-- RecoveryStates have the theorems.
--
-- Coordinator: src/aipcs_mcp/lifecycle_coordinator.py. The unit-of-work factory, the clock, the
-- service-store catalogue and the domain schema store are the record `Dependencies` of calls on a
-- world of any type: each call changes the world and returns or raises one of the exception classes
-- that the coordinator tells apart (Effects, Contracts). A method that may return a
-- `LifecycleExecutionResult` early is an `Act`. Observe has `_foundation`, `_domain_state` and
-- `_observe`, Apply `_apply`, Write the admission and the terminal writes, Prepare what `execute`
-- does before its loop, and Execute the loop. The loop is on fuel, one for each round; four rounds
-- are enough: a round that goes on has used the migration, the one schema write of its kind, or the
-- one repeated migration. Quiet, Reads, Commits, Prepared, Budget, Progress and Answers have the
-- theorems, for any dependencies; a counter of schema writes is a function of the world that only
-- `materialise` and `evolve` raise.
--
-- Operational: src/aipcs_mcp/application/operational_lifecycle.py. The four command classes are one
-- record with its kind. Matrix and Prepared have the theorems.
--
-- Portable: the export, import and purge commands of
-- src/aipcs_mcp/application/registry_authority.py, with their intents and fingerprints; Completion
-- has its receipts, tombstones and the results that a completed claim accepts, with the service and
-- the tombstone that `finalize_operational` and `finalize_purge` of the unit of work build. Prepared,
-- Fingerprints and Completed have the theorems. The digest of a payload (SHA-256 of its sorted
-- compact JSON) is a parameter in both; a theorem that relies on it says what it takes of it.
--
-- Samples and Tests have concrete manifests, requests, a registry and a world whose collaborators are
-- the registry of this library and a small service store, and the theorems applied to them.
--
-- Not modelled: SQL and the SQLite and PostgreSQL connections, the authority operations of the
-- registry as transactions, records and queries, the portable archive, configuration, the servers
-- and the command line. JSON documents are the records that they say, so their encoding is not
-- modelled either.
pub mod Prelude
pub mod Coordinator
pub mod Cycle
pub mod Manifest
pub mod Relational
pub mod Platform
pub mod Lifecycle
pub mod Registry
pub mod Operational
pub mod Portable
pub mod Samples
pub mod Tests
