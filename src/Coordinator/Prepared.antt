-- ===== src/Coordinator/Prepared.antt =====
-- What comes before the loop of `execute` keeps what the collaborators keep.
use aipcs_mcp.Prelude.{ok, err, Bool, true, false, ◌&&◌, Option, none, some, arith}
use aipcs_mcp.Manifest.{ManifestV2}
use aipcs_mcp.Platform.{Platform, LifecycleKind}
use aipcs_mcp.Relational.{Contract, RelationalSpecification, compile_manifest, classify_transition}
use aipcs_mcp.Lifecycle.{LifecycleResultCategory, LifecycleCommand, LifecycleIntent}
use aipcs_mcp.Registry.{Service}
use aipcs_mcp.Coordinator.Effects.{return, fail, Raised}
use aipcs_mcp.Coordinator.Contracts.{ServiceStoreLocator, StorageAdapterInfo, Dependencies}
use aipcs_mcp.Coordinator.Write.{finalize_recovery, admit}
use aipcs_mcp.Coordinator.Prepare.{
  source_matches, valid_locator, storage_matches, or_internal, compile_source, compile_kind,
  compile, locator_handler, located, locator, compiled_run, compile_at, prepare_matching,
  prepare_admitted, prepare,
}
use aipcs_mcp.Coordinator.Quiet.{
  IsKept, IsKept-of_mild, IsKept-if, IsKept-attempt, IsKept-bind, IsKeeper,
}
use aipcs_mcp.Coordinator.Commits.{concluded-IsMild, finalize_recovery-IsMild, admit-IsKept}

module _ {I S : Type 0} (Inv : I → S → Type 0) where
  or_internal-IsKept : {A : Type 0} (x : Contract A) → IsKept Inv (or_internal x)
  or_internal-IsKept (ok a) c s e = e
  or_internal-IsKept (err x) c s e = e

  locator_handler-IsKept : (A : Type 0) (r : Raised) → IsKept Inv (locator_handler {A = A} r)
  locator_handler-IsKept A r c s e = ground arith

  compile_source-IsKept :
      (p : Platform) (i : LifecycleIntent) (target : RelationalSpecification)
      (m : Option ManifestV2)
      → IsKept Inv (compile_source p i target m)
  compile_source-IsKept p i target none = λ c s e. e
  compile_source-IsKept p i target (some m) =
      IsKept-bind Inv _ _ (or_internal-IsKept (classify_transition p.strip m i.target_manifest))
        (λ t c s e. e)

  compile_kind-IsKept :
      (p : Platform) (i : LifecycleIntent) (x : Service) (target : RelationalSpecification)
      (kind : LifecycleKind)
      → IsKept Inv (compile_kind p i x target kind)
  compile_kind-IsKept p i x target LifecycleKind.materialise = λ c s e. e
  compile_kind-IsKept p i x target LifecycleKind.evolve =
      compile_source-IsKept p i target x.manifest

  compile-IsKept : (p : Platform) (i : LifecycleIntent) (x : Service) → IsKept Inv (compile p i x)
  unfolding compile
  compile-IsKept p i x =
      IsKept-bind Inv _ _ (or_internal-IsKept (compile_manifest p.strip i.target_manifest))
        (λ target. compile_kind-IsKept p i x target i.kind)

module _ {S U : Type 0} (d : Dependencies S U) (p : Platform) {I : Type 0} (Inv : I → S → Type 0)
    (k : IsKeeper d Inv) where
  located-IsKept :
      (i : LifecycleIntent) (x : Service) (info : StorageAdapterInfo) (l : ServiceStoreLocator)
      → IsKept Inv (located d p i x info l)
  located-IsKept i x info l =
      IsKept-if Inv (valid_locator p info l i && storage_matches i.kind x l) (return l)
        (fail LifecycleResultCategory.internal_failure) (λ c s e. e) (λ c s e. e)

  locator-IsKept : (i : LifecycleIntent) (x : Service) → IsKept Inv (locator d p i x)
  unfolding locator
  locator-IsKept i x =
      IsKept-attempt Inv d.info _ _ k.at_info (locator_handler-IsKept Inv _) (λ info.
        IsKept-attempt Inv (d.allocate i.service_id) _ _ (k.at_allocate i.service_id)
          (locator_handler-IsKept Inv _) (located-IsKept i x info))

  prepare_matching-IsKept :
      (i : LifecycleIntent) (x : Service) (b : Bool) → IsKept Inv (prepare_matching d p i x b)
  prepare_matching-IsKept i x false =
      IsKept-of_mild Inv _
        (concluded-IsMild d Inv k _ (finalize_recovery d i) (finalize_recovery-IsMild d Inv k i))
  prepare_matching-IsKept i x true =
      IsKept-bind Inv (locator d p i x) (compile_at d p i x) (locator-IsKept i x) (λ l.
        IsKept-bind Inv (compile p i x) (compiled_run d p i l) (compile-IsKept Inv p i x)
          (λ compiled c s e. e))

  pub prepare-IsKept : (command : LifecycleCommand) → IsKept Inv (prepare d p command)
  unfolding prepare
  prepare-IsKept command =
      IsKept-bind Inv (admit d command) (prepare_admitted d p) (admit-IsKept d Inv k command)
        (λ x. prepare_matching-IsKept (x.0) (x.1) (source_matches (x.0) (x.1)))
