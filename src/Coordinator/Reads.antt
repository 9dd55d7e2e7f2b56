-- ===== src/Coordinator/Reads.antt =====
-- The observations and the terminal writes keep what the collaborators keep, and never
-- answer that storage is unavailable.
use aipcs_mcp.Prelude.{ok, err, refl, not, Option, none, some, arith}
use aipcs_mcp.Platform.{LifecycleKind}
use aipcs_mcp.Relational.{RelationalSpecification, RelationalTransition}
use aipcs_mcp.Lifecycle.{
  Checked, LifecyclePhase, FoundationObservation, DomainObservation, observe_materialise,
  observe_evolve, LifecycleIntent,
}
use aipcs_mcp.Coordinator.Effects.{
  attempt, Raised, raises_busy, raises_unavailable, raises_transient_journal, raises_migration,
  raises_contract, raises_other,
}
use aipcs_mcp.Coordinator.Contracts.{
  is_service_store, is_ready, ServiceStoreLocator, MigrationState, Dependencies, DomainSchemaStatus,
}
use aipcs_mcp.Coordinator.Observe.{
  read_status, unread, promoted, not_acquired, after_journal, journal_handler, foundation_handler,
  foundation, read_domain, unread_domain, inspect_again, domain_handler, domain_state, accepted,
  domain_where_ready, domain_of_transition, source_state, observe_ready_evolve, observe_kind,
  observe,
}
use aipcs_mcp.Coordinator.Quiet.{IsMild, IsMild-if, IsMild-attempt, IsMild-bind, IsKeeper}

module _ {I S : Type 0} (Inv : I → S → Type 0) where
  read_status-IsMild : (m : MigrationState) → IsMild Inv (read_status m)
  read_status-IsMild m c s e = ground arith

  unread-IsMild : (r : Raised) → IsMild Inv (unread r)
  unread-IsMild r c s e = ground arith

  promoted-IsMild : (m : MigrationState) → IsMild Inv (promoted m)
  promoted-IsMild m c s e = ground arith

  not_acquired-IsMild : (r : Raised) → IsMild Inv (not_acquired r)
  not_acquired-IsMild r c s e = ground arith

module _ {S U : Type 0} (d : Dependencies S U) {I : Type 0} (Inv : I → S → Type 0)
    (k : IsKeeper d Inv) where
  module _ (l : ServiceStoreLocator) where
    after_journal-IsMild : (m : MigrationState) → IsMild Inv (after_journal d l m)
    after_journal-IsMild m =
        IsMild-if Inv (not (is_service_store m.component)) _ _ (λ c s e. (e, refl))
          (IsMild-if Inv (is_ready m.status) _ _ (read_status-IsMild Inv m) (
            IsMild-attempt Inv (d.inspect_migration l) unread promoted (k.at_inspect_migration l)
              (unread-IsMild Inv) (promoted-IsMild Inv)))

    inspect_after : IsMild Inv (attempt (d.inspect_migration l) unread (after_journal d l))
    inspect_after =
        IsMild-attempt Inv (d.inspect_migration l) unread (after_journal d l)
          (k.at_inspect_migration l) (unread-IsMild Inv) after_journal-IsMild

    journal_handler-IsMild : (r : Raised) → IsMild Inv (journal_handler d l r)
    journal_handler-IsMild raises_busy = λ c s e. e
    journal_handler-IsMild raises_unavailable = inspect_after
    journal_handler-IsMild raises_transient_journal = inspect_after
    journal_handler-IsMild raises_migration = λ c s e. e
    journal_handler-IsMild raises_contract = λ c s e. (e, refl)
    journal_handler-IsMild raises_other = λ c s e. (e, refl)

    foundation_handler-IsMild : (r : Raised) → IsMild Inv (foundation_handler d l r)
    foundation_handler-IsMild raises_busy = λ c s e. e
    foundation_handler-IsMild raises_unavailable =
        IsMild-attempt Inv (d.migrate l) not_acquired read_status (k.at_migrate l)
          (not_acquired-IsMild Inv) (read_status-IsMild Inv)
    foundation_handler-IsMild raises_transient_journal =
        IsMild-attempt Inv (d.migrate l) (journal_handler d l) (after_journal d l) (k.at_migrate l)
          journal_handler-IsMild after_journal-IsMild
    foundation_handler-IsMild raises_migration = λ c s e. e
    foundation_handler-IsMild raises_contract = λ c s e. (e, refl)
    foundation_handler-IsMild raises_other = λ c s e. (e, refl)

    foundation-IsMild : IsMild Inv (foundation d l)
    unfolding foundation
    foundation-IsMild =
        IsMild-attempt Inv (d.inspect_migration l) (foundation_handler d l) read_status
          (k.at_inspect_migration l) foundation_handler-IsMild (read_status-IsMild Inv)

    unread_domain-IsMild : (r : Raised) → IsMild Inv (unread_domain d l r)
    unread_domain-IsMild r c s e = ground arith

    read_domain-IsMild : (x : DomainSchemaStatus) → IsMild Inv (read_domain d l x)
    read_domain-IsMild x c s e = e

    module _ (spec : RelationalSpecification) where
      inspect_again-IsMild : (f : FoundationObservation) → IsMild Inv (inspect_again d l spec f)
      inspect_again-IsMild FoundationObservation.ready =
          IsMild-attempt Inv (d.inspect l spec) (unread_domain d l) (read_domain d l)
            (k.at_inspect l spec) unread_domain-IsMild read_domain-IsMild
      inspect_again-IsMild FoundationObservation.busy = λ c s e. e
      inspect_again-IsMild FoundationObservation.unavailable = λ c s e. e
      inspect_again-IsMild FoundationObservation.uncertain = λ c s e. e
      inspect_again-IsMild FoundationObservation.uninitialised = λ c s e. (e, refl)
      inspect_again-IsMild FoundationObservation.outdated = λ c s e. (e, refl)
      inspect_again-IsMild FoundationObservation.dirty = λ c s e. (e, refl)
      inspect_again-IsMild FoundationObservation.incompatible = λ c s e. (e, refl)
      inspect_again-IsMild FoundationObservation.not_observed = λ c s e. (e, refl)

      domain_handler-IsMild : (r : Raised) → IsMild Inv (domain_handler d l spec r)
      domain_handler-IsMild raises_busy = λ c s e. e
      domain_handler-IsMild raises_unavailable = λ c s e. e
      domain_handler-IsMild raises_transient_journal =
          IsMild-bind Inv (foundation d l) (inspect_again d l spec) foundation-IsMild
            inspect_again-IsMild
      domain_handler-IsMild raises_migration = λ c s e. e
      domain_handler-IsMild raises_contract = λ c s e. (e, refl)
      domain_handler-IsMild raises_other = λ c s e. (e, refl)

      domain_state-IsMild : IsMild Inv (domain_state d l spec)
      unfolding domain_state
      domain_state-IsMild =
          IsMild-attempt Inv (d.inspect l spec) (domain_handler d l spec) (read_domain d l)
            (k.at_inspect l spec) domain_handler-IsMild read_domain-IsMild

    accepted-IsMild : {A : Type 0} (x : Checked A) → IsMild Inv (accepted d l x)
    accepted-IsMild (ok a) c s e = e
    accepted-IsMild (err x) c s e = (e, refl)

    domain_where_ready-IsMild :
        (spec : RelationalSpecification) (f : FoundationObservation)
        → IsMild Inv (domain_where_ready d l spec f)
    domain_where_ready-IsMild spec FoundationObservation.ready = domain_state-IsMild spec
    domain_where_ready-IsMild spec _ = λ c s e. e

    domain_of_transition-IsMild :
        (t : Option RelationalTransition) → IsMild Inv (domain_of_transition d l t)
    domain_of_transition-IsMild none = λ c s e. (e, refl)
    domain_of_transition-IsMild (some t) = domain_state-IsMild t.current

    source_state-IsMild :
        (t : Option RelationalTransition) (o : DomainObservation)
        → IsMild Inv (source_state d l t o)
    source_state-IsMild t DomainObservation.unmaterialised = domain_of_transition-IsMild t
    source_state-IsMild t DomainObservation.incompatible = domain_of_transition-IsMild t
    source_state-IsMild t _ = λ c s e. e

    module _ (phase : LifecyclePhase) (spec : RelationalSpecification)
        (t : Option RelationalTransition) where
      observe_ready_evolve-IsMild :
          (f : FoundationObservation) → IsMild Inv (observe_ready_evolve d l phase spec t f)
      observe_ready_evolve-IsMild FoundationObservation.ready =
          IsMild-bind Inv (domain_state d l spec) _ (domain_state-IsMild spec) (λ target.
            IsMild-bind Inv (source_state d l t target) _ (source_state-IsMild t target) (λ source.
              accepted-IsMild (observe_evolve phase FoundationObservation.ready target source)))
      observe_ready_evolve-IsMild f =
          accepted-IsMild
            (observe_evolve phase f DomainObservation.not_observed DomainObservation.not_observed)

      observe_kind-IsMild :
          (kind : LifecycleKind) (f : FoundationObservation)
          → IsMild Inv (observe_kind d l kind phase spec t f)
      observe_kind-IsMild LifecycleKind.materialise f =
          IsMild-bind Inv (domain_where_ready d l spec f) _ (domain_where_ready-IsMild spec f)
            (λ target. accepted-IsMild (observe_materialise phase f target))
      observe_kind-IsMild LifecycleKind.evolve f = observe_ready_evolve-IsMild f

    pub observe-IsMild :
        (i : LifecycleIntent) (spec : RelationalSpecification) (t : Option RelationalTransition)
        → IsMild Inv (observe d l i spec t)
    unfolding observe
    observe-IsMild i spec t =
        IsMild-bind Inv (foundation d l) (observe_kind d l i.kind i.phase spec t) foundation-IsMild
          (observe_kind-IsMild i.phase spec t i.kind)
