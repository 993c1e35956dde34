-- ===== src/Controller/PolicyStatus/Reported.antt =====
-- What a run of `Reconcile` on a TokenPolicy reports, by how the policies resolve.
use token_control.Common.{ℕ, ◌≡◌, ◌⊎◌, inl, inr, refl, ◌&&◌, ◌||◌, Option, none, some, any, All}
use token_control.Common.Result.{Result, ok, err, Result-cases}
use token_control.Common.Sort.{Distinct}
use token_control.Text.{Text, ◌==◌}
use token_control.Text.Laws.{OtherText}
use token_control.Api.{GatewayType}
use token_control.Api.Selector.{LabelSelectors}
use token_control.Api.Policies.{TokenPolicyStatus}
use token_control.Gateway.{Artifact, artifact_for}
use token_control.Policy.Effective.{Effective, effective_models}
use token_control.Policy.Effective.Models.{OtherModel, Reports, names, effective_models-Reports}
use token_control.Policy.Resolve.{ResolveError}
use token_control.Webhook.Cluster.{found, Client}
use token_control.Controller.Conditions.{Conditions}
use token_control.Controller.Claim.{count_allowed, counts}
use token_control.Controller.Claim.Credentials.{distinct_allowed_credentials-counts}
use token_control.Controller.Artifacts.{
  Patched, applied, no_match, rejected, ApplyClient, StoredPolicy, type_of, conclude_patch,
  sync_artifact, reconcile_gateway, clean_up, artifact_gvks,
}
use token_control.Controller.PolicyStatus.{
  PolicyOutcome, update, invalid_policy, resolved_policy, conclude_policy, resolve_stored,
  reconcile_policy,
}

-- The parts of the status that tell what the policies decide.
abbrev pub SameDecision : TokenPolicyStatus → TokenPolicyStatus → Type 0
SameDecision w v =
    (w.observed_generation ≡ v.observed_generation)
    × (w.effective_models ≡ v.effective_models)
    × (w.effective_quota ≡ v.effective_quota)
    × (w.bound_credentials ≡ v.bound_credentials)

module _ (D : Conditions) {S : Type 0} (A : ApplyClient S) where
  conclude_patch-SameDecision :
      (s : StoredPolicy) (type : GatewayType) (a : Artifact) (r : S × Patched)
      → SameDecision (conclude_patch D A s type a r).status s.status
  unfolding conclude_patch
  conclude_patch-SameDecision s type a (st, applied) = (refl, refl, refl, refl)
  conclude_patch-SameDecision s type a (st, no_match e) = (refl, refl, refl, refl)
  conclude_patch-SameDecision s type a (st, rejected e) = (refl, refl, refl, refl)

  sync_artifact-SameDecision :
      (s : StoredPolicy) (type : GatewayType) (desired : Option Artifact) (st : S)
      → SameDecision (sync_artifact D A s type desired st).status s.status
  unfolding sync_artifact
  sync_artifact-SameDecision s type none st = (refl, refl, refl, refl)
  sync_artifact-SameDecision s type (some a) st =
      elim (Result-cases (A.set_owner s.policy.name a)) [
        | inr (e, h) ↦ rw (h, sync_artifact) (refl, refl, refl, refl)
        | inl (owned, h) ↦
            rw (h, sync_artifact)
              (conclude_patch-SameDecision s type owned
                (A.patch (clean_up D A a.gvk s.policy artifact_gvks st) owned))
      ]

  reconcile_gateway-SameDecision :
      (s : StoredPolicy) (eff : Effective) (st : S)
      → SameDecision (reconcile_gateway D A s eff st).status s.status
  unfolding reconcile_gateway
  reconcile_gateway-SameDecision s eff st =
      elim (Result-cases (artifact_for eff.gateway s.policy eff.quota)) [
        | inr (e, h) ↦ rw (h, reconcile_gateway) (refl, refl, refl, refl)
        | inl (desired, h) ↦
            rw (h, reconcile_gateway)
              (sync_artifact-SameDecision s (type_of eff.gateway) desired st)
      ]

-- The status tells the decision: exactly the models that an Allow rule of a tier names, each once, with
-- the verdict and the credential of the hierarchy; the quota; and the credentials of the allowed
-- models, each once.
pub record Describes (s : StoredPolicy) (eff : Effective) (w : TokenPolicyStatus) : Type 0 where
  pub current : w.observed_generation ≡ s.generation
  pub quota : w.effective_quota ≡ eff.quota
  models_once : Distinct OtherModel w.effective_models
  models_complete :
      (p m : Text)
      → any (λ x. x.provider == p && x.model == m) w.effective_models ≡ (
          any (names p m) eff.cluster.rules
          || any (names p m) eff.ns.rules
          || any (names p m) eff.wl.rules)
  models_report : All (Reports eff) w.effective_models
  credentials_once : Distinct OtherText w.bound_credentials
  credentials_of_allowed :
      (c : Text)
      → any (λ d. d == c) w.bound_credentials
        ≡ any (λ m. counts m && m.credential == c) w.effective_models

Describes-same :
    (D : Conditions) (s : StoredPolicy) (eff : Effective) (w : TokenPolicyStatus)
    → SameDecision w (resolved_policy D s.generation eff s.status)
    → Describes s eff w
unfolding resolved_policy
Describes-same D s eff w (generation, models, quota, credentials) =
    let (once, complete, report) = effective_models-Reports eff in
    let (different, allowed) = distinct_allowed_credentials-counts (effective_models eff) in
    record {
      current = generation;
      quota = quota;
      models_once = rw models once;
      models_complete = λ p m. rw models (complete p m);
      models_report = rw models report;
      credentials_once = rw credentials different;
      credentials_of_allowed = λ c. rw (credentials, models) (allowed c);
    }

module _ (K : LabelSelectors) (D : Conditions) (c : Client) {S : Type 0} (A : ApplyClient S)
    (s : StoredPolicy) (st : S) where
  -- What the run leaves, and what it returns.
  abbrev pub Reported : S × Result Text (Option PolicyOutcome) → Type 0
  Reported r =
      ((e : Text) × (resolve_stored K D c A s ≡ err e) × (r ≡ (st, err e)))
      ⊎ (((e : ResolveError) × (w : TokenPolicyStatus) × (resolve_stored K D c A s ≡ ok (err e))
            × (r ≡ (st, ok (some (update w none none))))
            × SameDecision w s.status)
          ⊎ ((eff : Effective) × (w : TokenPolicyStatus) × (g : Option (GatewayType × ℕ))
              × (resolve_stored K D c A s ≡ ok (ok eff))
              × (r.1 ≡ ok (some (update w (some (count_allowed w.effective_models)) g)))
              × Describes s eff w))

  -- A run on a policy that exists ends in one of three ways. The policies or the namespace cannot be
  -- read: no artifact is touched, and the error is returned. They do not resolve: no artifact is
  -- touched, and the written status tells the decision that it told before. Or they resolve, and
  -- whatever becomes of the gateway artifact, the written status tells the decision: the quota;
  -- exactly the models that an Allow rule of a tier names, each once, with the verdict and the
  -- credential of `Permit`; and exactly the credentials of the allowed ones, each once.
  pub reconcile_policy-Reported : Reported (reconcile_policy K D c A (found s) st)
  unfolding reconcile_policy conclude_policy invalid_policy resolved_policy
  reconcile_policy-Reported = elim (Result-cases (resolve_stored K D c A s)) [
    | inr (e, h) ↦ inl (e, h, rw (h, reconcile_policy) refl)
    | inl (err e, h) ↦ inr (
        inl (
          e,
          invalid_policy D s.generation s.status,
          h,
          rw (h, reconcile_policy) refl,
          (refl, refl, refl, refl),
        ))
    | inl (ok eff, h) ↦
        let resolved = record s { status = resolved_policy D s.generation eff s.status } in
        let gateway = reconcile_gateway D A resolved eff st in
        let same = reconcile_gateway-SameDecision D A resolved eff st in
        let written : (reconcile_policy K D c A (found s) st).1
            ≡ ok (
                some (
                  update gateway.status (some (count_allowed (effective_models eff)))
                    gateway.gauge)) =
          rw (h, reconcile_policy) refl in
        let models : gateway.status.effective_models ≡ effective_models eff = same.1 in
        inr (
          inr (
            eff,
            gateway.status,
            gateway.gauge,
            h,
            rw models written,
            Describes-same D s eff gateway.status same,
          ))
  ]
