-- ===== src/Operational/Matrix.antt =====
-- The states of a service under the four operational commands, as a step relation.
use aipcs_mcp.Prelude.{ok-injective, reject-rest, ok, ◌≡◌, refl, subst, ◌↔◌, true}
use aipcs_mcp.Registry.{DesignState, OperationalStatus, suspend, resume, archive, restore}
use aipcs_mcp.Operational.Command.{
  deterministic_target_status, is_allowed_source, transition_target_status,
  OperationalLifecycleCommand, OperationalLifecycleKind, suspend, resume, archive, restore,
  transition_unsupported,
}

-- The transition matrix.
pub data Step : OperationalLifecycleKind → OperationalStatus → OperationalStatus → Type 0 where
  suspends : Step suspend OperationalStatus.active OperationalStatus.suspended
  resumes : Step resume OperationalStatus.suspended OperationalStatus.active
  archives_active : Step archive OperationalStatus.active OperationalStatus.archived
  archives_suspended : Step archive OperationalStatus.suspended OperationalStatus.archived
  restores : Step restore OperationalStatus.archived OperationalStatus.suspended

Step-of :
    (k : OperationalLifecycleKind) (s t : OperationalStatus)
    → is_allowed_source k s ≡ true
    → deterministic_target_status k ≡ t
    → Step k s t
unfolding deterministic_target_status
Step-of suspend OperationalStatus.active t h e = subst (Step suspend _) e suspends
Step-of suspend OperationalStatus.suspended t h e = cc
Step-of suspend OperationalStatus.archived t h e = cc
Step-of resume OperationalStatus.active t h e = cc
Step-of resume OperationalStatus.suspended t h e = subst (Step resume _) e resumes
Step-of resume OperationalStatus.archived t h e = cc
Step-of archive OperationalStatus.active t h e = subst (Step archive _) e archives_active
Step-of archive OperationalStatus.suspended t h e = subst (Step archive _) e archives_suspended
Step-of archive OperationalStatus.archived t h e = cc
Step-of restore OperationalStatus.active t h e = cc
Step-of restore OperationalStatus.suspended t h e = cc
Step-of restore OperationalStatus.archived t h e = subst (Step restore _) e restores

Step-taken :
    (k : OperationalLifecycleKind) (s t : OperationalStatus)
    → Step k s t
    → (is_allowed_source k s ≡ true) × (deterministic_target_status k ≡ t)
unfolding deterministic_target_status
Step-taken k s t suspends = (refl, refl)
Step-taken k s t resumes = (refl, refl)
Step-taken k s t archives_active = (refl, refl)
Step-taken k s t archives_suspended = (refl, refl)
Step-taken k s t restores = (refl, refl)

-- A command returns a target status from a current one exactly when the matrix has a step of its kind
-- between the two: suspend from active to suspended, resume from suspended to active, archive from
-- active or suspended to archived, restore from archived to suspended.
pub transition_target_status-iff-Step :
    (command : OperationalLifecycleCommand) (state : DesignState) (s t : OperationalStatus)
    → (transition_target_status command state s ≡ ok t) ↔ Step command.kind s t
unfolding transition_target_status
transition_target_status-iff-Step command state s t = (
  λ h.
      let (allowed, rest) =
        reject-rest (is_allowed_source command.kind s) transition_unsupported _ h in
      Step-of command.kind s t allowed (ok-injective rest),
  λ x. let (allowed, target) = Step-taken command.kind s t x in simp (allowed, target),
)
