-- ===== src/Coordinator/Quiet.antt =====
-- The calls of the coordinator that keep a property of the world, and answers that do not say that
-- storage is unavailable.
use aipcs_mcp.Prelude.{if◌then◌else◌, Text, Result, ok, err, ℕ, ◌+◌, ◌≤◌, ◌≡◌, Bool, true, false}
use aipcs_mcp.Relational.{RelationalSpecification, RelationalTransition}
use aipcs_mcp.Lifecycle.{LifecycleResultCategory, LifecycleCommand, LifecycleIntent}
use aipcs_mcp.Registry.{LifecycleCompletion}
use aipcs_mcp.Coordinator.Effects.{
  Call, Act, proceed, settle, attempt, ◌>>=◌, Raised, LifecycleExecutionResult, failed_with,
}
use aipcs_mcp.Coordinator.Contracts.{ServiceStoreLocator, Dependencies}

-- Whatever the call does, it keeps the property of the world at every index.
abbrev pub Leaves : {I S A : Type 0} → (I → S → Type 0) → Call S A → Type 0
Leaves Inv call = (c : _) (s : _) → Inv c s → Inv c ((call s).1)

-- The counter has the value.
abbrev pub Counts : {S : Type 0} → (S → ℕ) → ℕ → S → Type 0
Counts count c s = count s ≡ c

-- No call but `materialise` and `evolve` touches the property.
pub record IsKeeper {I S U : Type 0} (d : Dependencies S U) (Inv : I → S → Type 0) : Type 0 where
  pub at_uows : Leaves Inv d.uows
  pub at_resolve : (u : U) (command : LifecycleCommand) → Leaves Inv (d.resolve_or_admit u command)
  pub at_get : (u : U) (principal : Text) (id : ℕ) → Leaves Inv (d.get u principal id)
  pub at_completed : (u : U) (c : LifecycleCompletion) → Leaves Inv (d.finalize_completed u c)
  pub at_recovery :
      (u : U) (i : LifecycleIntent) (at : ℕ) → Leaves Inv (d.finalize_recovery_required u i at)
  pub at_commit : (u : U) → Leaves Inv (d.commit u)
  pub at_rollback : (u : U) → Leaves Inv (d.rollback u)
  pub at_close : (u : U) → Leaves Inv (d.close u)
  pub at_now : Leaves Inv d.now
  pub at_info : Leaves Inv d.info
  pub at_allocate : (id : ℕ) → Leaves Inv (d.allocate id)
  pub at_inspect_migration : (l : ServiceStoreLocator) → Leaves Inv (d.inspect_migration l)
  pub at_migrate : (l : ServiceStoreLocator) → Leaves Inv (d.migrate l)
  pub at_inspect :
      (l : ServiceStoreLocator) (spec : RelationalSpecification) → Leaves Inv (d.inspect l spec)

-- A number that a world keeps: a call of `materialise` or `evolve` raises it by one at most, and no
-- other call changes it.
pub record IsWriteCounter {S U : Type 0} (d : Dependencies S U) (count : S → ℕ) : Type 0 where
  pub keeps : IsKeeper d (Counts count)
  pub at_materialise :
      (l : ServiceStoreLocator) (spec : RelationalSpecification) (s : S)
      → count ((d.materialise l spec s).1) ≤ count s + 1
  pub at_evolve :
      (l : ServiceStoreLocator) (t : RelationalTransition) (s : S)
      → count ((d.evolve l t s).1) ≤ count s + 1

abbrev pub is_unavailable : LifecycleExecutionResult → Bool
is_unavailable (failed_with LifecycleResultCategory.storage_unavailable) = true
is_unavailable _ = false

module _ {I S : Type 0} (Inv : I → S → Type 0) where
  -- The property is kept, and an answer does not say that storage is unavailable.
  abbrev pub Mild : {A : Type 0} → I → Result LifecycleExecutionResult A × S → Type 0
  Mild c (ok a, s) = Inv c s
  Mild c (err r, s) = (Inv c s) × (is_unavailable r ≡ false)

  abbrev pub IsMild : {A : Type 0} → Act S A → Type 0
  IsMild m = (c : I) (s : S) → Inv c s → Mild c (m s)

  -- The property is kept.
  abbrev pub IsKept : {A : Type 0} → Act S A → Type 0
  IsKept m = (c : I) (s : S) → Inv c s → Inv c ((m s).1)

  module _ {A : Type 0} where
    Mild-kept : (c : I) (x : Result LifecycleExecutionResult A × S) → Mild c x → Inv c (x.1)
    Mild-kept c (ok a, s) h = h
    Mild-kept c (err r, s) h = h.0

    pub IsKept-of_mild : (m : Act S A) → IsMild m → IsKept m
    IsKept-of_mild m h c s e = Mild-kept c (m s) (h c s e)

    pub IsMild-if : (b : Bool) (m n : Act S A) → IsMild m → IsMild n → IsMild (if b then m else n)
    IsMild-if true m n hm hn = hm
    IsMild-if false m n hm hn = hn

    pub IsKept-if : (b : Bool) (m n : Act S A) → IsKept m → IsKept n → IsKept (if b then m else n)
    IsKept-if true m n hm hn = hm
    IsKept-if false m n hm hn = hn

    module _ {B : Type 0} where
      Mild-settle :
          (handler : Raised → Act S B) (next : A → Act S B) (c : I) (x : Result Raised A × S)
          → ((e : Raised) → IsMild (handler e))
          → ((a : A) → IsMild (next a))
          → Inv c (x.1)
          → Mild c (settle handler next x)
      Mild-settle handler next c (ok a, s) hh hn e = hn a c s e
      Mild-settle handler next c (err raised, s) hh hn e = hh raised c s e

      pub IsMild-attempt :
          (call : Call S A) (handler : Raised → Act S B) (next : A → Act S B)
          → Leaves Inv call
          → ((e : Raised) → IsMild (handler e))
          → ((a : A) → IsMild (next a))
          → IsMild (attempt call handler next)
      IsMild-attempt call handler next l hh hn c s e =
          Mild-settle handler next c (call s) hh hn (l c s e)

      Mild-proceed :
          (next : A → Act S B) (c : I) (x : Result LifecycleExecutionResult A × S)
          → ((a : A) → IsMild (next a))
          → Mild c x
          → Mild c (proceed next x)
      Mild-proceed next c (ok a, s) hn e = hn a c s e
      Mild-proceed next c (err r, s) hn e = e

      pub IsMild-bind :
          (m : Act S A) (next : A → Act S B)
          → IsMild m
          → ((a : A) → IsMild (next a))
          → IsMild (m >>= next)
      IsMild-bind m next hm hn c s e = Mild-proceed next c (m s) hn (hm c s e)

      kept_settle :
          (handler : Raised → Act S B) (next : A → Act S B) (c : I) (x : Result Raised A × S)
          → ((e : Raised) → IsKept (handler e))
          → ((a : A) → IsKept (next a))
          → Inv c (x.1)
          → Inv c ((settle handler next x).1)
      kept_settle handler next c (ok a, s) hh hn e = hn a c s e
      kept_settle handler next c (err raised, s) hh hn e = hh raised c s e

      pub IsKept-attempt :
          (call : Call S A) (handler : Raised → Act S B) (next : A → Act S B)
          → Leaves Inv call
          → ((e : Raised) → IsKept (handler e))
          → ((a : A) → IsKept (next a))
          → IsKept (attempt call handler next)
      IsKept-attempt call handler next l hh hn c s e =
          kept_settle handler next c (call s) hh hn (l c s e)

      kept_proceed :
          (next : A → Act S B) (c : I) (x : Result LifecycleExecutionResult A × S)
          → ((a : A) → IsKept (next a))
          → Inv c (x.1)
          → Inv c ((proceed next x).1)
      kept_proceed next c (ok a, s) hn e = hn a c s e
      kept_proceed next c (err r, s) hn e = e

      pub IsKept-bind :
          (m : Act S A) (next : A → Act S B)
          → IsKept m
          → ((a : A) → IsKept (next a))
          → IsKept (m >>= next)
      IsKept-bind m next hm hn c s e = kept_proceed next c (m s) hn (hm c s e)
