-- ===== src/Samples/Worlds.antt =====
-- A world with one registry and one service store, and the coordinator's collaborators on it.
use aipcs_mcp.Prelude.{
  codes, Result, ok, err, ℕ, ◌+◌, ◌≡◌, refl, ◌∙◌, Bool, true, false, [], ◌∷◌, ◌++◌, arith,
}
use aipcs_mcp.Samples.Requests.{platform, registry}
use aipcs_mcp.Registry.{
  StorageBackend, Stored, stored_service, Registry, StorageError, busy_error, unavailable_error,
  migration_error, resolve_or_admit, finalize_completed, finalize_recovery_required,
}
use aipcs_mcp.Coordinator.{
  Call, Raised, raises_busy, raises_unavailable, raises_migration, MigrationState, Dependencies,
  service_store_component, MigrationStatus, DomainSchemaStatus,
}
use aipcs_mcp.Coordinator.Quiet.{IsWriteCounter}

pub record World : Type 0 where
  pub reachable : Bool
  pub stored : Registry
  pub foundation : MigrationStatus
  pub domain : DomainSchemaStatus
  pub schema_writes : ℕ
  pub clock : ℕ

abbrev raised_by : StorageError → Raised
raised_by busy_error = raises_busy
raised_by unavailable_error = raises_unavailable
raised_by migration_error = raises_migration

abbrev pub stored_in : {A : Type 0} → World → Stored (A × Registry) → Result Raised A × World
stored_in w (ok (a, r)) = (ok a, record w { stored = r })
stored_in w (err e) = (err (raised_by e), w)

abbrev pub read_from : {A : Type 0} → World → Stored A → Result Raised A × World
read_from w (ok a) = (ok a, w)
read_from w (err e) = (err (raised_by e), w)

abbrev returns : {A : Type 0} → A → Call World A
returns a w = (ok a, w)

abbrev pub opened : Bool → Call World (Unit {0})
opened true w = (ok tt, w)
opened false w = (err raises_unavailable, w)

abbrev migration_state : World → MigrationState
migration_state w = record {
  component = service_store_component;
  applied_revision = 1;
  target_revision = 1;
  status = w.foundation;
}

abbrev pub dependencies : Dependencies World (Unit {0})
dependencies = record {
  uows = λ w. opened w.reachable w;
  resolve_or_admit = λ u command w. stored_in w (resolve_or_admit platform w.stored command);
  get = λ u principal id w. read_from w (stored_service platform w.stored principal id);
  finalize_completed = λ u c w. stored_in w (finalize_completed platform c w.stored);
  finalize_recovery_required =
      λ u i at w. stored_in w (finalize_recovery_required platform i at w.stored);
  commit = λ u. returns tt;
  rollback = λ u. returns tt;
  close = λ u. returns tt;
  now = λ w. (ok w.clock, w);
  info = returns (record {
    backend = StorageBackend.sqlite;
    supported_components = service_store_component ∷ [];
  });
  allocate = λ id. returns (record {
    backend = StorageBackend.sqlite;
    namespace = codes "svc_" ++ platform.uuid_hex id;
  });
  inspect_migration = λ l w. (ok (migration_state w), w);
  migrate = λ l w.
      let w' = record w { foundation = MigrationStatus.ready } in (ok (migration_state w'), w');
  inspect = λ l spec w. (ok w.domain, w);
  materialise = λ l spec w.
      (ok tt, record w { domain = DomainSchemaStatus.ready; schema_writes = w.schema_writes + 1 });
  evolve = λ l t w.
      (ok tt, record w { domain = DomainSchemaStatus.ready; schema_writes = w.schema_writes + 1 });
}

abbrev pub fresh : World
fresh = record {
  reachable = true;
  stored = registry;
  foundation = MigrationStatus.uninitialised;
  domain = DomainSchemaStatus.unmaterialised;
  schema_writes = 0;
  clock = 3;
}

abbrev pub closed : World
closed = record fresh { reachable = false }

opened_writes : (b : Bool) (w : World) → (opened b w).1.schema_writes ≡ w.schema_writes
opened_writes true w = refl
opened_writes false w = refl

stored_in_writes :
    {A : Type 0} (w : World) (x : Stored (A × Registry))
    → (stored_in w x).1.schema_writes ≡ w.schema_writes
stored_in_writes w (ok (a, r)) = refl
stored_in_writes w (err e) = refl

read_from_writes :
    {A : Type 0} (w : World) (x : Stored A) → (read_from w x).1.schema_writes ≡ w.schema_writes
read_from_writes w (ok a) = refl
read_from_writes w (err e) = refl

pub counts_writes : IsWriteCounter dependencies (λ w. w.schema_writes)
counts_writes = record {
  keeps = record {
    at_uows = λ c s e. opened_writes s.reachable s ∙ e;
    at_resolve =
        λ u command c s e. stored_in_writes s (resolve_or_admit platform s.stored command) ∙ e;
    at_get = λ u principal id c s e.
        read_from_writes s (stored_service platform s.stored principal id) ∙ e;
    at_completed = λ u x c s e. stored_in_writes s (finalize_completed platform x s.stored) ∙ e;
    at_recovery =
        λ u i at c s e. stored_in_writes s (finalize_recovery_required platform i at s.stored) ∙ e;
    at_commit = λ u c s e. e;
    at_rollback = λ u c s e. e;
    at_close = λ u c s e. e;
    at_now = λ c s e. e;
    at_info = λ c s e. e;
    at_allocate = λ id c s e. e;
    at_inspect_migration = λ l c s e. e;
    at_migrate = λ l c s e. e;
    at_inspect = λ l spec c s e. e;
  };
  at_materialise = λ l spec s. omega arith;
  at_evolve = λ l t s. omega arith;
}
