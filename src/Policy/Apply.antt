-- ===== src/Policy/Apply.antt =====
-- What the loops of `Resolve` do with the policies that apply: the tiers, the scalar fields and the
-- set of sources of an `Effective`, one policy at a time.
pub mod Fields
pub mod Latest
pub mod Sources
use token_control.Common.{
  Bool, true, false, not, List, [], ◌∷◌, ◌++◌, map, Option, none, some, any, is_nil, if◌then◌else◌,
}
use token_control.Common.Int.{ltb_ℤ, eqb_ℤ}
use token_control.Common.Sort.{sort}
use token_control.Text.{Text, ◌==◌, before, codes}
use token_control.Api.{EnforcementMode, ModelPermission, CredentialReference}
use token_control.Api.Policies.{ClusterTokenPolicy, TokenPolicy}
use token_control.Policy.Quota.{min_quota}
use token_control.Policy.Tier.{SourcedRule, Tier}
use token_control.Policy.Effective.{Effective}

abbrev pub by_name : ClusterTokenPolicy → ClusterTokenPolicy → Bool
by_name p q = before p.name q.name

-- `sortByPriority`: ascending, so that the highest priority is applied last.
abbrev pub by_priority : TokenPolicy → TokenPolicy → Bool
by_priority p q =
    if not (eqb_ℤ p.spec.priority q.spec.priority)
    then ltb_ℤ p.spec.priority q.spec.priority
    else before p.name q.name

unfoldable pub sort_by_priority : List TokenPolicy → List TokenPolicy
unfolding before sort
sort_by_priority = sort by_priority

-- `sourceSet[src] = struct{}{}`
unfoldable pub add_source : Text → List Text → List Text
unfolding ◌==◌
add_source src set = if any (λ s. src == s) set then set else src ∷ set

abbrev pub source_if : Bool → Text → List Text → List Text
source_if b src set = if b then add_source src set else set

abbrev pub is_set {ℓ} : {A : Type ℓ} → Option A → Bool
is_set none = false
is_set (some a) = true

abbrev pub enforcement_or : EnforcementMode → EnforcementMode → EnforcementMode
enforcement_or EnforcementMode.unset old = old
enforcement_or new old = new

abbrev pub or_else {ℓ} : {A : Type ℓ} → Option A → Option A → Option A
or_else none old = old
or_else (some new) old = some new

abbrev pub name_or : Option CredentialReference → Text → Text
name_or none old = old
name_or (some c) old = c.name

unfoldable pub sourced : Text → List ModelPermission → List SourcedRule
sourced src models = map (λ m. record { rule = m; source = src }) models

abbrev pub add_rules : Tier → List SourcedRule → Tier
add_rules t rs = record t { rules = t.rules ++ rs }

-- `eff` with `sourceSet`, which the code passes beside it.
pub record State : Type 0 where
  pub eff : Effective
  pub source_set : List Text

abbrev pub cluster_source : ClusterTokenPolicy → Text
cluster_source p = codes "ClusterTokenPolicy/" ++ p.name

abbrev pub policy_source : TokenPolicy → Text
policy_source p = codes "TokenPolicy/" ++ (p.namespace ++ (codes "/" ++ p.name))

-- One round of the loop over the cluster policies that match.
unfoldable pub apply_cluster : State → ClusterTokenPolicy → State
unfolding sourced add_source min_quota
apply_cluster s p = record {
  eff = record s.eff {
    cluster = add_rules s.eff.cluster (sourced (cluster_source p) p.spec.models);
    quota = min_quota s.eff.quota p.spec.quota;
    enforcement = enforcement_or p.spec.enforcement s.eff.enforcement;
    gateway = or_else p.spec.gateway s.eff.gateway;
    default_credential = name_or p.spec.default_credential_ref s.eff.default_credential;
  };
  source_set =
      source_if (not (is_nil p.spec.models)) (cluster_source p)
        (source_if (is_set p.spec.quota) (cluster_source p) s.source_set);
}

-- The tier that `applyNamespaceTier` is given by a pointer into `eff`.
pub data Level : Type 0 where
  namespace workload : Level

abbrev pub extend_level : Level → Effective → List SourcedRule → Effective
extend_level namespace e rs = record e { ns = add_rules e.ns rs }
extend_level workload e rs = record e { wl = add_rules e.wl rs }

unfoldable pub apply_namespace_tier : Level → State → TokenPolicy → State
unfolding sourced add_source min_quota
apply_namespace_tier level s p = record {
  eff = record (extend_level level s.eff (sourced (policy_source p) p.spec.models)) {
    quota = min_quota s.eff.quota p.spec.quota;
    enforcement = enforcement_or p.spec.enforcement s.eff.enforcement;
    gateway = or_else p.spec.gateway s.eff.gateway;
  };
  source_set =
      source_if (is_set p.spec.quota) (policy_source p)
        (source_if (not (is_nil p.spec.models)) (policy_source p) s.source_set);
}

unfoldable pub apply_each {ℓ} : {A : Type ℓ} → (State → A → State) → State → List A → State
apply_each f s [] = s
apply_each f s (x ∷ xs) = apply_each f (f s x) xs
