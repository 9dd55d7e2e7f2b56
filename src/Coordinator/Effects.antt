-- ===== src/Coordinator/Effects.antt =====
-- The calls that the coordinator makes on a world, the exceptions that they raise, and the early
-- return of a `LifecycleExecutionResult`.
use aipcs_mcp.Prelude.{Result, ok, err}
use aipcs_mcp.Lifecycle.{LifecycleResultCategory}
use aipcs_mcp.Registry.{Service}

-- The classes of storage/errors.py that the coordinator distinguishes. A transient journal is one
-- kind of unavailable storage.
pub data Raised : Type 0 where
  raises_busy raises_unavailable raises_transient_journal raises_migration : Raised
  raises_contract raises_other : Raised

-- A category, or "completed" with the service.
pub data LifecycleExecutionResult : Type 0 where
  completed_with : Service → LifecycleExecutionResult
  failed_with : LifecycleResultCategory → LifecycleExecutionResult

-- A call of a collaborator: it changes the world and returns or raises.
abbrev pub Call : Type 0 → Type 0 → Type 0
Call S A = S → Result Raised A × S

-- A method of the coordinator that may return early.
abbrev pub Act : Type 0 → Type 0 → Type 0
Act S A = S → Result LifecycleExecutionResult A × S

module _ {S : Type 0} where
  module _ {A B : Type 0} where
    abbrev pub proceed :
        (A → Act S B)
        → Result LifecycleExecutionResult A × S
        → Result LifecycleExecutionResult B × S
    proceed next (ok a, s) = next a s
    proceed next (err r, s) = (err r, s)

    abbrev pub settle :
        (Raised → Act S B)
        → (A → Act S B)
        → Result Raised A × S
        → Result LifecycleExecutionResult B × S
    settle handler next (ok a, s) = next a s
    settle handler next (err e, s) = handler e s

    -- `try: call() except ...: handler`, and what follows where the call returned.
    abbrev pub attempt : Call S A → (Raised → Act S B) → (A → Act S B) → Act S B
    attempt call handler next s = settle handler next (call s)

  -- `with suppress(Exception): call()`
  abbrev pub quietly : {A : Type 0} → Call S A → S → S
  quietly call s = (call s).1

  abbrev pub return : {A : Type 0} → A → Act S A
  return a s = (ok a, s)

  abbrev pub answer : {A : Type 0} → LifecycleExecutionResult → Act S A
  answer r s = (err r, s)

  -- `return _result(category)`
  abbrev pub fail : {A : Type 0} → LifecycleResultCategory → Act S A
  fail c = answer (failed_with c)

infixl 5 ◌>>=◌
abbrev pub ◌>>=◌ : {S A B : Type 0} → Act S A → (A → Act S B) → Act S B
(m >>= next) s = proceed next (m s)

infixl 5 ◌>>◌
abbrev pub ◌>>◌ : {S B : Type 0} → Act S (Unit {0}) → Act S B → Act S B
m >> next = m >>= λ _. next

-- A method that always returns early.
abbrev pub conclude : {S A : Type 0} → Act S ⊥ → Act S A
conclude m = m >>= λ x. absurd x
