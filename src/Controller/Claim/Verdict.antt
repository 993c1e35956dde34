-- ===== src/Controller/Claim/Verdict.antt =====
-- When a claim is bound.
use token_control.Common.{◌≡◌, ◌≢◌, ◌↔◌, refl, true, false, List, [], ◌∷◌, map, All, arith, ltb}
use token_control.Common.Int.{ℤ}
use token_control.Common.Result.{ok, >>=-returns}
use token_control.Api.{EffectiveModel, is_deny}
use token_control.Api.Selector.{Labels, LabelSelectors}
use token_control.Api.Policies.{ClusterTokenPolicy, TokenPolicy}
use token_control.Api.Claim.{ModelRequest, ModelClaim, bound, denied, ModelClaimStatus}
use token_control.Policy.Effective.{Effective, permit}
use token_control.Policy.Resolve.{ResolveInput, resolve}
use token_control.Controller.Conditions.{Conditions}
use token_control.Controller.Claim.{
  ClaimIdentity, claim_identities, Binding, bind_decision, bind_decisions, resolve_request,
  resolve_identities, resolve_claim, count_actions, resolved_status,
}

abbrev pub Permits : Effective → ModelRequest → Type 0
Permits e m = (permit e m.provider m.model).allowed ≡ true

bind_decisions-allowed :
    (b : Binding) (es : List Effective) (m : ModelRequest)
    → ((bind_decisions b es m.provider m.model).allowed ≡ true)
      ↔ ((b.allowed ≡ true) × All (λ e. Permits e m) es)
unfolding bind_decisions bind_decision
bind_decisions-allowed b [] m = ground arith
bind_decisions-allowed b (e ∷ es) m =
    ground (arith, bind_decisions-allowed (bind_decision b (permit e m.provider m.model)) es m)

resolve_request-allowed :
    (es : List Effective) (m : ModelRequest)
    → (is_deny (resolve_request es m).action ≡ false) ↔ All (λ e. Permits e m) es
unfolding resolve_request
resolve_request-allowed es m =
    ground
      (arith, bind_decisions-allowed (record { allowed = true; credential = []; source = [] }) es m)

denials-zero :
    (es : List Effective) (ms : List ModelRequest)
    → (ltb 0 (count_actions is_deny (map (resolve_request es) ms)) ≡ false)
      ↔ All (λ m. All (λ e. Permits e m) es) ms
unfolding count_actions
denials-zero es [] = ground arith
denials-zero es (m ∷ ms) = ground (arith, denials-zero es ms, resolve_request-allowed es m)

module _ (K : LabelSelectors) (mcl : ModelClaim) (cluster : List ClusterTokenPolicy)
    (ns : List TokenPolicy) (labels : Labels) where
  -- What the policies decide for an identity of the claim.
  abbrev pub scope_of : ClaimIdentity → ResolveInput
  scope_of id = record {
    cluster_policies = cluster;
    namespace_policies = ns;
    namespace = mcl.namespace;
    namespace_labels = labels;
    pod_labels = id.pod_labels;
    service_account = id.sa;
  }

  -- The decision for the identity permits the request.
  abbrev pub IdentityPermits : ModelRequest → ClaimIdentity → Type 0
  IdentityPermits m id = (e : Effective) × (resolve K (scope_of id) ≡ ok e) × Permits e m

  identities-Permits :
      (m : ModelRequest) (ids : List ClaimIdentity) (es : List Effective)
      → resolve_identities K mcl cluster ns labels ids ≡ ok es
      → All (λ e. Permits e m) es ↔ All (IdentityPermits m) ids
  unfolding resolve_identities
  identities-Permits m [] es h = let same : es ≡ [] = ground arith in (λ k. tt, λ k. rw same tt)
  identities-Permits m (id ∷ ids) es h =
      let (e, he, k) = >>=-returns (resolve K (scope_of id)) _ h in
      let (rest, hr, l) = >>=-returns (resolve_identities K mcl cluster ns labels ids) _ k in
      let same : es ≡ e ∷ rest = ground arith in
      let later = identities-Permits m ids rest hr in
      (
        λ p. let (first, others) = rw same at p in ((e, he, first), later.0 others),
        λ ((e', he', first), others).
            let one : e ≡ e' = ground arith in rw same (rw one first, later.1 others),
      )

  All-iff :
      {A : Type 0} (P Q : A → Type 0) → ((a : A) → P a ↔ Q a) → (xs : List A) → All P xs ↔ All Q xs
  All-iff P Q f [] = (λ h. h, λ h. h)
  All-iff P Q f (x ∷ xs) =
      let rest = All-iff P Q f xs in
      (λ h. ((f x).0 h.0, rest.0 h.1), λ h. ((f x).1 h.0, rest.1 h.1))

  -- A claim that resolves is bound exactly when, for every request and every identity that its
  -- selector stands for, the policies permit the requested model; otherwise it is denied.
  pub resolved_status-bound :
      (C : Conditions) (generation : ℤ) (st : ModelClaimStatus) (resolved : List EffectiveModel)
      → resolve_claim K mcl cluster ns labels ≡ ok resolved
      → let phase = (resolved_status C generation resolved st).phase in
        ((phase ≡ bound)
          ↔ All (λ m. All (IdentityPermits m) (claim_identities mcl.spec.selector)) mcl.spec.models)
        × (phase ≢ bound → phase ≡ denied)
  unfolding resolve_claim resolved_status
  resolved_status-bound C generation st resolved h =
      let ids = claim_identities mcl.spec.selector in
      let (es, he, k) = >>=-returns (resolve_identities K mcl cluster ns labels ids) _ h in
      let same : resolved ≡ map (resolve_request es) mcl.spec.models = ground arith in
      let zero = denials-zero es mcl.spec.models in
      let swap =
        All-iff (λ m. All (λ e. Permits e m) es) (λ m. All (IdentityPermits m) ids)
          (λ m. identities-Permits m ids es he) mcl.spec.models in
      rw same
        ((λ b. swap.0 (zero.0 (ground arith)), λ a. rw (zero.1 (swap.1 a)) refl), λ n. ground arith)
