-- ===== src/Controller/Claim.antt =====
-- internal/controller/modelclaim_controller.go and helpers.go: the binding of a ModelClaim.
pub mod Verdict
pub mod Credentials
pub mod Admitted
mod Tests
use token_control.Common.{
  ℕ, ◌+◌, Bool, true, false, not, ◌&&◌, ◌||◌, List, [], ◌∷◌, ◌++◌, map, Option, none, some, any,
  is_nil, ltb, if◌then◌else◌,
}
use token_control.Common.Int.{ℤ}
use token_control.Common.Result.{Result, ok, err, ◌>>=◌}
use token_control.Text.{Text, ◌==◌, codes, non_empty}
use token_control.Api.{PermissionAction, EffectiveModel, CredentialReference, is_allow, is_deny}
use token_control.Api.Selector.{Labels, LabelSelector, LabelSelectors, WorkloadSelector}
use token_control.Api.Policies.{ClusterTokenPolicy, TokenPolicy}
use token_control.Api.Claim.{
  ModelRequest, ModelClaim, ModelClaimPhase, bound, denied, ModelClaimStatus,
}
use token_control.Controller.Conditions.{Conditions, set_condition}
use token_control.Policy.Effective.{Effective, ModelDecision, permit, action_of}
use token_control.Policy.Tier.{credential_name}
use token_control.Policy.Resolve.{ResolveInput, ResolveError, resolve}
use token_control.Webhook.Cluster.{Fetch, found, not_found, failed, Client, namespace_labels}

pub record ClaimIdentity : Type 0 where
  pub pod_labels : Option Labels
  pub sa : Text

abbrev labels_if_any : Option LabelSelector → Option Labels
labels_if_any none = none
labels_if_any (some s) = if is_nil s.match_labels then none else some s.match_labels

unfoldable pub claim_identities : Option WorkloadSelector → List ClaimIdentity
claim_identities none = record { pod_labels = none; sa = [] } ∷ []
claim_identities (some sel) =
    let pod_labels = labels_if_any sel.pod_selector in
    if is_nil sel.service_accounts
    then record { pod_labels = pod_labels; sa = [] } ∷ []
    else map (λ sa. record { pod_labels = pod_labels; sa = sa }) sel.service_accounts

-- The variables of the loop over the decisions for one request.
pub record Binding : Type 0 where
  pub allowed : Bool
  pub credential : Text
  pub source : Text

unfoldable pub bind_decision : Binding → ModelDecision → Binding
bind_decision b dec =
    if not dec.allowed
    then record {
      allowed = false;
      credential = b.credential;
      source = if is_nil b.source then dec.denied_by else b.source;
    }
    else if is_nil b.credential && non_empty dec.credential
    then record b { credential = dec.credential }
    else b

unfoldable pub bind_decisions : Binding → List Effective → Text → Text → Binding
bind_decisions b [] provider model = b
bind_decisions b (e ∷ es) provider model =
    bind_decisions (bind_decision b (permit e provider model)) es provider model

-- The credential of a request that is allowed or not.
abbrev pub bound_credential : Binding → ModelRequest → Text
bound_credential b m =
    if not b.allowed
    then []
    else if is_nil b.credential
    then credential_name m.credential_ref
    else b.credential

unfoldable pub resolve_request : List Effective → ModelRequest → EffectiveModel
resolve_request effs m =
    let b =
      bind_decisions (record { allowed = true; credential = []; source = [] }) effs m.provider
        m.model in
    record {
      provider = m.provider;
      model = m.model;
      action = action_of b.allowed;
      credential = bound_credential b m;
      source = b.source;
    }

module _ (K : LabelSelectors) where
  unfoldable pub resolve_identities :
      ModelClaim
      → List ClusterTokenPolicy
      → List TokenPolicy
      → Labels
      → List ClaimIdentity
      → Result ResolveError (List Effective)
  resolve_identities mcl cluster ns labels [] = ok []
  resolve_identities mcl cluster ns labels (id ∷ ids) = do
    eff ← resolve K (record {
      cluster_policies = cluster;
      namespace_policies = ns;
      namespace = mcl.namespace;
      namespace_labels = labels;
      pod_labels = id.pod_labels;
      service_account = id.sa;
    })
    effs ← resolve_identities mcl cluster ns labels ids
    ok (eff ∷ effs)

  unfoldable pub resolve_claim :
      ModelClaim
      → List ClusterTokenPolicy
      → List TokenPolicy
      → Labels
      → Result ResolveError (List EffectiveModel)
  resolve_claim mcl cluster ns labels = do
    effs ← resolve_identities mcl cluster ns labels (claim_identities mcl.spec.selector)
    ok (map (resolve_request effs) mcl.spec.models)

abbrev pub counts : EffectiveModel → Bool
counts m = is_allow m.action && non_empty m.credential

unfoldable pub distinct_credentials : List Text → List EffectiveModel → List Text
distinct_credentials out [] = out
distinct_credentials out (m ∷ ms) =
    distinct_credentials
      (if counts m && not (any (λ c. c == m.credential) out)
        then out ++ (m.credential ∷ [])
        else out)
      ms

-- `distinctAllowedCredentials`: the keys of `seen` are the elements of `out`.
unfoldable pub distinct_allowed_credentials : List EffectiveModel → List Text
distinct_allowed_credentials = distinct_credentials []

unfoldable pub count_actions : (PermissionAction → Bool) → List EffectiveModel → ℕ
count_actions p [] = 0
count_actions p (m ∷ ms) = (if p m.action then 1 else 0) + count_actions p ms

unfoldable pub count_allowed : List EffectiveModel → ℕ
count_allowed = count_actions is_allow

-- The status that is written, with the gauge of allowed models where it is set.
pub data Outcome : Type 0 where
  update : ModelClaimStatus → Option ℕ → Outcome

module _ (C : Conditions) where
  -- What is written after an error of `resolveClaim`.
  unfoldable pub invalid_status : ℤ → ModelClaimStatus → ModelClaimStatus
  invalid_status generation st = record st {
    conditions =
        set_condition C (codes "Ready") false (codes "ResolveError") generation
          (set_condition C (codes "Valid") false (codes "ResolveError") generation st.conditions);
  }

  -- What is written for the resolved models.
  unfoldable pub resolved_status : ℤ → List EffectiveModel → ModelClaimStatus → ModelClaimStatus
  resolved_status generation resolved st =
      let refused = ltb 0 (count_actions is_deny resolved) in
      record {
        observed_generation = generation;
        phase = if refused then denied else bound;
        resolved_models = resolved;
        bound_credentials = distinct_allowed_credentials resolved;
        conditions = set_condition C (codes "Ready") true (codes "Reconciled") generation (
            set_condition C (codes "Valid") true (codes "Resolved") generation (
              set_condition C (codes "Bound") (not refused)
                (if refused then codes "ModelsDenied" else codes "AllModelsPermitted") generation
                st.conditions));
      }

  -- The status that `resolveClaim` leads to.
  unfoldable pub conclude :
      ℤ → ModelClaimStatus → Result ResolveError (List EffectiveModel) → Outcome
  conclude generation st (err e) = update (invalid_status generation st) none
  conclude generation st (ok resolved) =
      update (resolved_status generation resolved st) (some (count_allowed resolved))

-- The object that is read: the claim with its generation and its status.
pub record StoredClaim : Type 0 where
  pub claim : ModelClaim
  pub generation : ℤ
  pub status : ModelClaimStatus

module _ (K : LabelSelectors) (C : Conditions) (c : Client) where
  -- From the first List on.
  unfoldable pub rebind : StoredClaim → Result Text Outcome
  rebind s = do
    clusters ← c.list_cluster_policies
    policies ← c.list_policies s.claim.namespace
    labels ← namespace_labels c s.claim.namespace
    ok (conclude C s.generation s.status (resolve_claim K s.claim clusters policies labels))

  -- `Reconcile`: none where the claim is gone.
  unfoldable pub reconcile_claim : Fetch StoredClaim → Result Text (Option Outcome)
  reconcile_claim not_found = ok none
  reconcile_claim (failed e) = err e
  reconcile_claim (found s) = rebind s >>= λ o. ok (some o)
