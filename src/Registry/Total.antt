-- ===== src/Registry/Total.antt =====
-- `resolve_or_admit` on a registry whose rows can be read: no branch raises.
use aipcs_mcp.Prelude.{
  Option-cases, some-injective, find, Text, ◌>>=◌, ok, ℕ, ◌≡◌, subst, inl, inr, true, Option, none,
  some, arith,
}
use aipcs_mcp.Platform.{Platform, IsStripping}
use aipcs_mcp.Lifecycle.{LifecycleCommand}
use aipcs_mcp.Registry.Services.{valid_service, Service}
use aipcs_mcp.Registry.Tables.{Stored, Registry, has_identity, stored_service}
use aipcs_mcp.Registry.Admit.{Admission}
use aipcs_mcp.Registry.Healthy.{find-Each, IsHealthy, IsRequest}

module _ (p : Platform) (r : Registry) (healthy : IsHealthy p r) where
  pub stored_service-total :
      (principal : Text) (id : ℕ)
      → (s : Option Service) × (stored_service p r principal id ≡ ok s)
        × ((x : Service) → s ≡ some x → valid_service p x ≡ true)
  unfolding stored_service
  stored_service-total principal id =
      elim (Option-cases (find (has_identity principal id) r.services)) [
        | inl e ↦ (none, ground arith, λ x n. cc)
        | inr (s, e) ↦
            let v : valid_service p s ≡ true =
              find-Each (λ s. valid_service p s ≡ true) (has_identity principal id) r.services
                healthy.services e in
            (
              some s,
              ground arith,
              λ x q. subst (λ s. valid_service p s ≡ true) (some-injective q) v,
            )
      ]

module _ (p : Platform) (strips : IsStripping p) (r : Registry) (command : LifecycleCommand)
    (healthy : IsHealthy p r) (request : IsRequest p command) where
  abbrev Total : Stored Admission → Type 0
  Total m = (a : Admission) × (m ≡ ok a) × IsHealthy p (a.1)
