-- ===== src/Webhook/Admit/Bindings.antt =====
-- modelclaim_webhook.go and modelcredential_webhook.go.
use token_control.Common.{
  ℕ, ◌+◌, Bool, true, List, [], ◌∷◌, ◌++◌, Option, none, some, is_nil, any, if◌then◌else◌,
}
use token_control.Text.{Text, ◌==◌}
use token_control.Api.{CredentialReference}
use token_control.Api.Selector.{LabelSelectors}
use token_control.Api.Claim.{ModelRequest, ModelClaim}
use token_control.Api.Credential.{SecretKeySelector, ModelCredential}
use token_control.Policy.Effective.{Effective, permit}
use token_control.Webhook.Cluster.{Fetch, found, not_found, failed, Client}
use token_control.Webhook.Admit.{
  Problem, bad_namespace_selector, bad_provider, bad_model, Warning, request_credential_missing,
  not_bound, unusable, secret_missing, secret_key_missing, Admission, check_pattern,
  selector_problems, workload_problems, broader, unless_problems,
}

unfoldable pub request_problems : ℕ → List ModelRequest → List Problem
request_problems i [] = []
request_problems i (m ∷ ms) =
    check_pattern m.provider (bad_provider i m.provider)
    ++ (check_pattern m.model (bad_model i m.model) ++ request_problems (i + 1) ms)

unfoldable pub model_problems : ℕ → List Text → List Problem
model_problems i [] = []
model_problems i (m ∷ ms) = check_pattern m (bad_model i m) ++ model_problems (i + 1) ms

module _ (K : LabelSelectors) (c : Client) where
  abbrev missing_request : ℕ → Option CredentialReference → List Warning
  missing_request i none = []
  missing_request i (some ref) = elim (c.get_credential ref.name) [
    | found mc ↦ []
    | not_found ↦ request_credential_missing i ref.name ∷ []
    | failed e ↦ request_credential_missing i ref.name ∷ []
  ]

  unfoldable pub request_warnings : ℕ → List ModelRequest → List Warning
  request_warnings i [] = []
  request_warnings i (m ∷ ms) = missing_request i m.credential_ref ++ request_warnings (i + 1) ms

  unfoldable pub refused_requests : Effective → List ModelRequest → List Warning
  refused_requests eff [] = []
  refused_requests eff (m ∷ ms) =
      let rest = refused_requests eff ms in
      let d = permit eff m.provider m.model in
      if d.allowed then rest else not_bound m.provider m.model d.reason ∷ rest

  unfoldable pub permit_warnings : ModelClaim → List Warning
  permit_warnings mc = elim (broader K c mc.namespace (λ p. true)) [
    | none ↦ []
    | some eff ↦ refused_requests eff mc.spec.models
  ]

  unfoldable pub validate_claim : ModelClaim → Admission
  validate_claim mc =
      unless_problems K c
        (workload_problems K mc.spec.selector ++ request_problems 0 mc.spec.models)
        (request_warnings 0 mc.spec.models ++ permit_warnings mc)

  abbrev has_key : List (Text × Text) → Text → Bool
  has_key entries key = any (λ d. d.0 == key) entries

  -- The namespace of the source Secret.
  abbrev pub secret_namespace : Text → SecretKeySelector → Text
  secret_namespace operator_namespace ref =
      if is_nil ref.namespace then operator_namespace else ref.namespace

  -- An error other than that there is no such Secret gives no warning.
  abbrev secret_warnings : Fetch (List (Text × Text)) → Text → SecretKeySelector → List Warning
  secret_warnings not_found ns ref = secret_missing ns ref.name ∷ []
  secret_warnings (failed e) ns ref = []
  secret_warnings (found entries) ns ref =
      if has_key entries ref.key then [] else secret_key_missing ns ref.name ref.key ∷ []

  abbrev unusable_warnings : ModelCredential → List Warning
  unusable_warnings mc =
      if is_nil mc.spec.allowed_namespaces
      then elim mc.spec.namespace_selector [ none ↦ unusable ∷ [] | some s ↦ [] ]
      else []

  -- `get_secret` is the client's Get of a Secret by namespace and name: its data.
  unfoldable pub validate_credential :
      (Text → Text → Fetch (List (Text × Text))) → Text → ModelCredential → Admission
  validate_credential get_secret operator_namespace mc =
      let ns = secret_namespace operator_namespace mc.spec.secret_ref in
      unless_problems K c
        (selector_problems K bad_namespace_selector mc.spec.namespace_selector
          ++ model_problems 0 mc.spec.models)
        (unusable_warnings mc
          ++ secret_warnings (get_secret ns mc.spec.secret_ref.name) ns mc.spec.secret_ref)
