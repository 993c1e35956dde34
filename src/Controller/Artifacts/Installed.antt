-- ===== src/Controller/Artifacts/Installed.antt =====
-- Which artifacts of a policy there are after `reconcileGateway`.
use token_control.Common.{
  subst, ◌≡◌, ◌⊎◌, ◌∙◌, sym, inl, inr, refl, true, false, Option, none, some, All, arith,
  if◌then◌else◌, Bool-cases, Option-cases,
}
use token_control.Common.Result.{ok, err, Result-cases}
use token_control.Text.{Text, ◌==◌}
use token_control.Api.{TokenQuota, GatewayType, GatewayIntegration}
use token_control.Api.Policies.{TokenPolicy}
use token_control.Gateway.{
  GroupVersionKind, envoy_backend_traffic_policy_gvk, kuadrant_token_rate_limit_policy_gvk,
  Artifact, artifact_name, GatewayError, artifact_for,
}
use token_control.Gateway.Includes.{Includes}
use token_control.Gateway.Limits.{artifact_for-Carries}
use token_control.Policy.Effective.{Effective}
use token_control.Controller.Conditions.{Conditions}
use token_control.Controller.Artifacts.{
  Patched, applied, no_match, rejected, ApplyClient, StoredPolicy, same_gvk, no_gvk, kept_gvk,
  artifact_gvks, GatewayRun, GatewayFailure, not_owned, invalid_config, type_of, delete_artifact,
  clean_up, conclude_patch, sync_artifact, reconcile_gateway,
}
use token_control.Controller.Artifacts.Laws.{ApplyLaws, DeletesArtifacts}

kinds_differ :
    same_gvk envoy_backend_traffic_policy_gvk kuadrant_token_rate_limit_policy_gvk ≡ false
unfolding same_gvk ◌==◌
kinds_differ = refl

module _ (D : Conditions) {S : Type 0} (A : ApplyClient S) (L : ApplyLaws A) where
  -- No artifact of the policy is of the kind.
  abbrev Absent : TokenPolicy → S → GroupVersionKind → Type 0
  Absent tp st gvk = L.stored st gvk tp.namespace (artifact_name tp.name) ≡ none

  -- One round of the clean-up.
  abbrev cleaned : GroupVersionKind → TokenPolicy → GroupVersionKind → S → S
  cleaned keep tp gvk st =
      if same_gvk gvk keep
      then st
      else delete_artifact D A gvk tp.namespace (artifact_name tp.name) st

  cleaned-Absent :
      (keep gvk : GroupVersionKind) (tp : TokenPolicy) (st : S)
      → DeletesArtifacts A L
      → same_gvk gvk keep ≡ false
      → Absent tp (cleaned keep tp gvk st) gvk
  unfolding delete_artifact
  cleaned-Absent keep gvk tp st deletes h =
      rw h (deletes st gvk tp.namespace (artifact_name tp.name))

  cleaned-others :
      (keep gvk gvk' : GroupVersionKind) (tp : TokenPolicy) (st : S)
      → same_gvk gvk gvk' ≡ false
      → Absent tp st gvk
      → Absent tp (cleaned keep tp gvk' st) gvk
  unfolding delete_artifact
  cleaned-others keep gvk gvk' tp st other h = elim (Bool-cases (same_gvk gvk' keep)) [
    | inl e ↦ rw e h
    | inr e ↦ rw e (
        L.delete_others st gvk gvk' tp.namespace (artifact_name tp.name) tp.namespace
          (artifact_name tp.name) (rw other refl)
        ∙ h)
  ]

  clean_up-Absent :
      (keep : GroupVersionKind) (tp : TokenPolicy) (st : S)
      → DeletesArtifacts A L
      → All
          (λ gvk. same_gvk gvk keep ≡ false → Absent tp (clean_up D A keep tp artifact_gvks st) gvk)
          artifact_gvks
  unfolding clean_up
  clean_up-Absent keep tp st deletes = (
    λ h.
        cleaned-others keep envoy_backend_traffic_policy_gvk kuadrant_token_rate_limit_policy_gvk tp
          _ kinds_differ (cleaned-Absent keep envoy_backend_traffic_policy_gvk tp st deletes h),
    (λ h. cleaned-Absent keep kuadrant_token_rate_limit_policy_gvk tp _ deletes h, tt),
  )

  -- An artifact of the desired kind is stored under the policy's namespace and name, and its spec
  -- includes the desired one: each field of it has the desired value.
  abbrev Holds : TokenPolicy → S → Option Artifact → Type 0
  Holds tp st none = Unit
  Holds tp st (some a) =
      (b : Artifact) × (L.stored st a.gvk tp.namespace (artifact_name tp.name) ≡ some b)
      × Includes b.spec a.spec

  -- No artifact of another kind than the desired one is left.
  abbrev OthersAbsent : TokenPolicy → GroupVersionKind → S → Type 0
  OthersAbsent tp keep st = All (λ gvk. same_gvk gvk keep ≡ false → Absent tp st gvk) artifact_gvks

  patched-Absent :
      (tp : TokenPolicy) (a owned : Artifact) (st : S) (gvk : GroupVersionKind)
      → owned.gvk ≡ a.gvk
      → (same_gvk gvk a.gvk ≡ false → Absent tp st gvk)
      → same_gvk gvk a.gvk ≡ false
      → Absent tp (A.patch st owned).0 gvk
  patched-Absent tp a owned st gvk same before h =
      L.patch_others st owned gvk tp.namespace (artifact_name tp.name) (rw (same, h) refl)
      ∙ before h

  conclude_patch-state :
      (s : StoredPolicy) (type : GatewayType) (owned : Artifact) (r : S × Patched)
      → (conclude_patch D A s type owned r).state ≡ r.0
  unfolding conclude_patch
  conclude_patch-state s type owned (st, applied) = refl
  conclude_patch-state s type owned (st, no_match e) = refl
  conclude_patch-state s type owned (st, rejected e) = refl

  sync_artifact-OthersAbsent :
      (s : StoredPolicy) (type : GatewayType) (desired : Option Artifact) (st : S)
      → DeletesArtifacts A L
      → OthersAbsent s.policy (kept_gvk desired) (sync_artifact D A s type desired st).state
  unfolding sync_artifact
  sync_artifact-OthersAbsent s type none st deletes = clean_up-Absent no_gvk s.policy st deletes
  sync_artifact-OthersAbsent s type (some a) st deletes =
      let absent = clean_up-Absent a.gvk s.policy st deletes in
      elim (Result-cases (A.set_owner s.policy.name a)) [
        | inr (e, h) ↦ rw (h, sync_artifact) absent
        | inl (owned, h) ↦
            let keeps = L.owned s.policy.name a owned h in
            let cleaned = clean_up D A a.gvk s.policy artifact_gvks st in
            rw (h, sync_artifact)
              (rw (conclude_patch-state s type owned (A.patch cleaned owned)) (
                patched-Absent s.policy a owned cleaned envoy_backend_traffic_policy_gvk keeps.0
                    absent.0,
                (
                  patched-Absent s.policy a owned cleaned kuadrant_token_rate_limit_policy_gvk
                      keeps.0 absent.1.0,
                  tt,
                ),
              ))
      ]

  -- A run without an error has applied the owned artifact.
  conclude_patch-applied :
      (s : StoredPolicy) (type : GatewayType) (owned : Artifact) (r : S × Patched)
      → (conclude_patch D A s type owned r).error ≡ none
      → r.1 ≡ applied
  unfolding conclude_patch
  conclude_patch-applied s type owned (st, applied) h = refl
  conclude_patch-applied s type owned (st, no_match e) h = absurd (ground arith)
  conclude_patch-applied s type owned (st, rejected e) h = absurd (ground arith)

  at_key :
      (st : S) {gvk gvk' : GroupVersionKind} {ns ns' name name' : Text} {o : Option Artifact}
      → gvk ≡ gvk'
      → ns ≡ ns'
      → name ≡ name'
      → L.stored st gvk ns name ≡ o
      → L.stored st gvk' ns' name' ≡ o
  at_key st g n m h = cc

  sync_artifact-Holds :
      (s : StoredPolicy) (type : GatewayType) (a : Artifact) (st : S)
      → a.namespace ≡ s.policy.namespace
      → a.name ≡ artifact_name s.policy.name
      → (sync_artifact D A s type (some a) st).error ≡ none
      → Holds s.policy (sync_artifact D A s type (some a) st).state (some a)
  unfolding sync_artifact
  sync_artifact-Holds s type a st space name h = elim (Result-cases (A.set_owner s.policy.name a)) [
    | inr (e, k) ↦
        let no : some (not_owned e) ≡ none = rw (k, sync_artifact) at h in absurd (ground arith)
    | inl (owned, k) ↦
        let (same_kind, same_space, same_name, same_spec) = L.owned s.policy.name a owned k in
        let patched = A.patch (clean_up D A a.gvk s.policy artifact_gvks st) owned in
        let done = conclude_patch-applied s type owned patched (rw (k, sync_artifact) at h) in
        let (b, found, spec) =
          L.patched (clean_up D A a.gvk s.policy artifact_gvks st) owned done in
        rw (k, sync_artifact)
          (rw (conclude_patch-state s type owned patched) (
            b,
            at_key _ same_kind (same_space ∙ space) (same_name ∙ name) found,
            subst (λ v. Includes b.spec v) same_spec spec,
          ))
  ]

  -- What a run comes to: the configuration has no artifact, and nothing is touched; or no artifact of
  -- another kind is left, and where the run reports no error the desired spec is stored.
  abbrev pub Installed : StoredPolicy → Effective → S → GatewayRun S → Type 0
  Installed s eff st r =
      ((e : GatewayError) × (artifact_for eff.gateway s.policy eff.quota ≡ err e)
        × (r.state ≡ st)
        × (r.error ≡ some (invalid_config e)))
      ⊎ ((desired : Option Artifact) × (artifact_for eff.gateway s.policy eff.quota ≡ ok desired)
          × All (λ gvk. (same_gvk gvk (kept_gvk desired) ≡ true) ⊎ Absent s.policy r.state gvk)
              artifact_gvks
          × (((r.error ≡ none) × Holds s.policy r.state desired)
              ⊎ ((e : GatewayFailure) × (r.error ≡ some e))))

  named_after :
      (gw : Option GatewayIntegration) (tp : TokenPolicy) (quota : Option TokenQuota) (a : Artifact)
      → artifact_for gw tp quota ≡ ok (some a)
      → (a.namespace ≡ tp.namespace) × (a.name ≡ artifact_name tp.name)
  unfolding artifact_for
  named_after none tp quota a h = absurd (ground arith)
  named_after (some gw) tp quota a h =
      let (name, space, _) = artifact_for-Carries gw tp quota a h in (space, name)

  kept-or-Absent :
      (tp : TokenPolicy) (keep gvk : GroupVersionKind) (st : S)
      → (same_gvk gvk keep ≡ false → Absent tp st gvk)
      → (same_gvk gvk keep ≡ true) ⊎ Absent tp st gvk
  kept-or-Absent tp keep gvk st h = elim (Bool-cases (same_gvk gvk keep)) [
    | inl e ↦ inl e
    | inr e ↦ inr (h e)
  ]

  sync_artifact-Installed :
      (s : StoredPolicy) (eff : Effective) (desired : Option Artifact) (st : S)
      → DeletesArtifacts A L
      → artifact_for eff.gateway s.policy eff.quota ≡ ok desired
      → ((sync_artifact D A s (type_of eff.gateway) desired st).error ≡ none
          → Holds s.policy (sync_artifact D A s (type_of eff.gateway) desired st).state desired)
      → Installed s eff st (sync_artifact D A s (type_of eff.gateway) desired st)
  sync_artifact-Installed s eff desired st deletes h holds =
      let r = sync_artifact D A s (type_of eff.gateway) desired st in
      let others = sync_artifact-OthersAbsent s (type_of eff.gateway) desired st deletes in
      inr (
        desired,
        h,
        (
          kept-or-Absent s.policy (kept_gvk desired) envoy_backend_traffic_policy_gvk r.state
              others.0,
          (
            kept-or-Absent s.policy (kept_gvk desired) kuadrant_token_rate_limit_policy_gvk r.state
                others.1.0,
            tt,
          ),
        ),
        elim (Option-cases r.error) [ inl e ↦ inl (e, holds e) | inr (x, e) ↦ inr (x, e) ],
      )

  -- Where each Delete leaves no such artifact: either the gateway configuration is an error, which the
  -- run returns, and no artifact is touched; or there is a desired artifact or none, no artifact of the
  -- policy of another kind is left, and the run returns an error, or an artifact of the desired kind is
  -- stored under its name in the namespace of the policy, in which each field of the desired spec has
  -- the desired value.
  pub reconcile_gateway-Installed :
      (s : StoredPolicy) (eff : Effective) (st : S)
      → DeletesArtifacts A L
      → Installed s eff st (reconcile_gateway D A s eff st)
  unfolding reconcile_gateway
  reconcile_gateway-Installed s eff st deletes =
      elim (Result-cases (artifact_for eff.gateway s.policy eff.quota)) [
        | inr (e, h) ↦ inl (e, h, rw (h, reconcile_gateway) refl, rw (h, reconcile_gateway) refl)
        | inl (none, h) ↦
            let all = sync_artifact-Installed s eff none st deletes h (λ _. tt) in
            subst (λ x. Installed s eff st x) (sym (step none h)) all
        | inl (some a, h) ↦
            let (space, name) = named_after eff.gateway s.policy eff.quota a h in
            let all =
              sync_artifact-Installed s eff (some a) st deletes h
                (sync_artifact-Holds s (type_of eff.gateway) a st space name) in
            subst (λ x. Installed s eff st x) (sym (step (some a) h)) all
      ]
    where
      step :
          (desired : Option Artifact)
          → artifact_for eff.gateway s.policy eff.quota ≡ ok desired
          → reconcile_gateway D A s eff st ≡ sync_artifact D A s (type_of eff.gateway) desired st
      step desired h = rw (h, reconcile_gateway) refl
