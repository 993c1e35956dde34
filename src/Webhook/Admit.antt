-- ===== src/Webhook/Admit.antt =====
-- internal/webhook/v1alpha1: the validating webhooks of ClusterTokenPolicy, TokenPolicy, ModelClaim and
-- ModelCredential, with the first two. The type assertion on the object has no counterpart.
mod Tests
pub mod Bindings
pub mod Accepted
pub mod Resolves
pub mod Dead
pub mod Writes
pub mod History
use token_control.Common.{
  ℕ, ◌+◌, Bool, true, false, not, ◌&&◌, ◌||◌, List, [], ◌∷◌, ◌++◌, Option, none, some, is_nil, leb,
  eqb, length, filterb, any, if◌then◌else◌,
}
use token_control.Common.Result.{Result, ok, err}
use token_control.Text.{Text, ◌==◌, codes, non_empty}
use token_control.Api.{
  GatewayType, GatewayIntegration, PermissionAction, ModelPermission, CredentialReference, is_deny,
}
use token_control.Api.Selector.{Labels, LabelSelector, LabelSelectors, WorkloadSelector}
use token_control.Api.Policies.{ClusterTokenPolicy, TokenPolicy}
use token_control.Api.Claim.{ModelRequest, ModelClaim}
use token_control.Api.Credential.{ModelCredential}
use token_control.Policy.Glob.{valid_glob}
use token_control.Policy.Effective.{Effective, ModelDecision, permit}
use token_control.Policy.Resolve.{ResolveInput, ResolveError, resolve}
use token_control.Webhook.Cluster.{Fetch, found, not_found, failed, Client, namespace_labels}

-- The structural errors; a pattern with its index.
pub data Problem : Type 0 where
  bad_pod_selector bad_namespace_selector : Text → Problem
  bad_provider bad_model : ℕ → Text → Problem
  no_target_ref : GatewayType → Problem

-- The warnings, with what the message names.
pub data Warning : Type 0 where
  credential_missing : Text → Warning
  provider_mismatch : Text → Text → Text → Warning
  default_missing : Text → Warning
  no_effect : Text → Text → Text → Warning
  request_credential_missing : ℕ → Text → Warning
  not_bound : Text → Text → Text → Warning
  unusable : Warning
  secret_missing : Text → Text → Warning
  secret_key_missing : Text → Text → Text → Warning

-- The warnings, with the error `invalid` by the problems that it joins, or none.
pub record Admission : Type 0 where
  pub warnings : List Warning
  pub problems : List Problem

abbrev lower : ℕ → ℕ
lower c = if leb b'A' c && leb c b'Z' then c + 32 else c

-- The loop of `equalFold`, over texts of one length.
equal_bytes : Text → Text → Bool
equal_bytes [] t = true
equal_bytes (c ∷ s) [] = true
equal_bytes (c ∷ s) (d ∷ t) =
    let rest = equal_bytes s t in if not (eqb (lower c) (lower d)) then false else rest

unfoldable pub equal_fold : Text → Text → Bool
unfolding equal_bytes
equal_fold a b = if not (eqb (length a) (length b)) then false else equal_bytes a b

-- A problem where the pattern is not valid.
abbrev pub check_pattern : Text → Problem → List Problem
check_pattern pattern p = if valid_glob pattern then [] else p ∷ []

unfoldable pub rule_problems : ℕ → List ModelPermission → List Problem
rule_problems i [] = []
rule_problems i (m ∷ ms) =
    check_pattern m.provider (bad_provider i m.provider)
    ++ (check_pattern m.model (bad_model i m.model) ++ rule_problems (i + 1) ms)

unfoldable pub validate_model_rules : List ModelPermission → List Problem
validate_model_rules = rule_problems 0

abbrev pub no_gateway : GatewayType → Bool
no_gateway GatewayType.none = true
no_gateway GatewayType.unset = true
no_gateway _ = false

-- `spec.gateway.targetRef` is missing where the type needs one.
unfoldable pub gateway_problems : Option GatewayIntegration → List Problem
gateway_problems none = []
gateway_problems (some g) =
    if no_gateway g.type
    then []
    else elim g.target_ref [ none ↦ no_target_ref g.type ∷ [] | some t ↦ [] ]

module _ (K : LabelSelectors) where
  unfoldable pub selector_problems : (Text → Problem) → Option LabelSelector → List Problem
  selector_problems wrap none = []
  selector_problems wrap (some s) = elim (K.as_selector s) [ ok f ↦ [] | err e ↦ wrap e ∷ [] ]

  unfoldable pub workload_problems : Option WorkloadSelector → List Problem
  workload_problems none = []
  workload_problems (some w) = selector_problems bad_pod_selector w.pod_selector

abbrev provider_warning : Text → ModelCredential → ModelPermission → List Warning
provider_warning name mc m =
    if non_empty mc.spec.provider
      && (not (m.provider == codes "*") && not (equal_fold mc.spec.provider m.provider))
    then provider_mismatch name mc.spec.provider m.provider ∷ []
    else []

module _ (K : LabelSelectors) (c : Client) where
  -- The warning for the credential of a rule, where it has one.
  unfoldable pub credential_warning : ModelPermission → Option CredentialReference → List Warning
  credential_warning m none = []
  credential_warning m (some ref) = elim (c.get_credential ref.name) [
    | found mc ↦ provider_warning ref.name mc m
    | not_found ↦ credential_missing ref.name ∷ []
    | failed e ↦ credential_missing ref.name ∷ []
  ]

  unfoldable pub credential_warnings : List ModelPermission → List Warning
  credential_warnings [] = []
  credential_warnings (m ∷ ms) = credential_warning m m.credential_ref ++ credential_warnings ms

  -- The labels of a namespace, where an error is ignored.
  abbrev pub labels_or_none : Text → Labels
  labels_or_none namespace = elim (namespace_labels c namespace) [ ok l ↦ l | err e ↦ [] ]

  abbrev pub namespace_input : Text → List ClusterTokenPolicy → List TokenPolicy → ResolveInput
  namespace_input namespace clusters policies = record {
    cluster_policies = clusters;
    namespace_policies = policies;
    namespace = namespace;
    namespace_labels = labels_or_none namespace;
    pod_labels = none;
    service_account = [];
  }

  -- The decision for a namespace by the policies that pass the test, or none where it cannot be
  -- made.
  unfoldable pub broader : Text → (TokenPolicy → Bool) → Option Effective
  broader namespace keep = elim c.list_cluster_policies [
    | err e ↦ none
    | ok clusters ↦ elim (c.list_policies namespace) [
      | err e ↦ none
      | ok policies ↦
          elim (resolve K (namespace_input namespace clusters (filterb keep policies))) [
            | err e ↦ none
            | ok eff ↦ if eff.model_governed then some eff else none
          ]
    ]
  ]

  unfoldable pub dead_rules : Effective → List ModelPermission → List Warning
  dead_rules base [] = []
  dead_rules base (m ∷ ms) =
      let rest = dead_rules base ms in
      let d = permit base m.provider m.model in
      if is_deny m.action || d.allowed then rest else no_effect m.provider m.model d.reason ∷ rest

  unfoldable pub hierarchy_warnings : TokenPolicy → List Warning
  hierarchy_warnings tp = elim (broader tp.namespace (λ p. not (p.name == tp.name))) [
    | none ↦ []
    | some base ↦ dead_rules base tp.spec.models
  ]

  unfoldable pub token_policy_problems : TokenPolicy → List Problem
  token_policy_problems tp =
      workload_problems K tp.spec.selector
      ++ (validate_model_rules tp.spec.models ++ gateway_problems tp.spec.gateway)

  abbrev pub unless_problems : List Problem → List Warning → Admission
  unless_problems ps ws =
      if not (is_nil ps)
      then record { warnings = []; problems = ps }
      else record { warnings = ws; problems = [] }

  unfoldable pub validate_token_policy : TokenPolicy → Admission
  validate_token_policy tp =
      unless_problems (token_policy_problems tp)
        (credential_warnings tp.spec.models ++ hierarchy_warnings tp)

  unfoldable pub default_warnings : Option CredentialReference → List Warning
  default_warnings none = []
  default_warnings (some ref) = elim (c.get_credential ref.name) [
    | found mc ↦ []
    | not_found ↦ default_missing ref.name ∷ []
    | failed e ↦ default_missing ref.name ∷ []
  ]

  unfoldable pub cluster_policy_problems : ClusterTokenPolicy → List Problem
  cluster_policy_problems ctp =
      selector_problems K bad_namespace_selector ctp.spec.namespace_selector
      ++ (validate_model_rules ctp.spec.models ++ gateway_problems ctp.spec.gateway)

  unfoldable pub validate_cluster_policy : ClusterTokenPolicy → Admission
  validate_cluster_policy ctp =
      unless_problems (cluster_policy_problems ctp)
        (credential_warnings ctp.spec.models ++ default_warnings ctp.spec.default_credential_ref)
