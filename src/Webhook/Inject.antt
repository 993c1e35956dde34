-- ===== src/Webhook/Inject.antt =====
-- internal/webhook/v1alpha1/pod_webhook.go: `PodDefaulter`, which binds credentials to pods.
pub mod Authorized
pub mod Loop
use token_control.Common.{
  Bool, true, false, not, ◌&&◌, ◌||◌, List, [], ◌∷◌, ◌++◌, Option, any, is_nil, if◌then◌else◌,
}
use token_control.Common.Result.{Result, ok, err, ◌>>=◌}
use token_control.Text.{Text, ◌==◌, codes, join, non_empty}
use token_control.Api.Selector.{LabelSelectors}
use token_control.Api.Credential.{ModelCredential}
use token_control.Policy.Effective.{Effective, ModelDecision, permit}
use token_control.Webhook.Cluster.{
  found, not_found, failed, Fetch, Client, Config, ReadError, exempt, resolve_effective,
  credential_authorizes,
}
use token_control.Webhook.Pod.{Pod, sa_of, namespace_from, annotation, set_annotation}
use token_control.Webhook.Declared.{DeclaredModel, declared_models}
use token_control.Webhook.Deliver.{inject_credential}

-- The credential that the policies bind, or else the one that the claim asks for.
abbrev pub credential_for : ModelDecision → DeclaredModel → Text
credential_for dec dm = if is_nil dec.credential then dm.credential else dec.credential

abbrev pub append_new : List Text → Text → List Text
append_new order cred =
    if non_empty cred && not (any (λ s. s == cred) order) then order ++ (cred ∷ []) else order

-- `credOrder`, whose elements are the keys of `seen`.
unfoldable pub cred_order : Effective → List Text → List DeclaredModel → List Text
cred_order eff order [] = order
cred_order eff order (dm ∷ dms) =
    let dec = permit eff dm.provider dm.model in
    cred_order eff (if dec.allowed then append_new order (credential_for dec dm) else order) dms

-- The pod with the names of the credentials that were injected; each is counted once in the metric
-- CredentialsInjected.
pub record Bound : Type 0 where
  pub pod : Pod
  pub bound : List Text

abbrev pub bind_changed : Text → List Text → Pod × Bool → Bound
bind_changed name bound (pod, changed) = record {
  pod = pod;
  bound = if changed then bound ++ (name ∷ []) else bound;
}

abbrev pub bind_if : Bool → Text → ModelCredential → Bound → Bound
bind_if authorized name mc b =
    if authorized then bind_changed name b.bound (inject_credential b.pod mc) else b

module _ (K : LabelSelectors) (c : Client) (namespace : Text) where
  -- One round of the loop over `credOrder`.
  unfoldable pub bind_one : Text → Bound → Result Text Bound
  bind_one name b = elim (c.get_credential name) [
    | not_found ↦ ok b
    | failed e ↦ err e
    | found mc ↦
        credential_authorizes K c mc namespace >>= λ authorized. ok (bind_if authorized name mc b)
  ]

  unfoldable pub bind_all : List Text → Bound → Result Text Bound
  bind_all [] b = ok b
  bind_all (name ∷ names) b = bind_one name b >>= λ next. bind_all names next

abbrev pub annotation_bound : Text
annotation_bound = codes "governance.tokencontrol.io/credentials-bound"

abbrev pub annotation_effective : Text
annotation_effective = codes "governance.tokencontrol.io/effective-policy"

abbrev pub annotation_disabled : Text
annotation_disabled = codes "governance.tokencontrol.io/inject-credentials-disabled"

abbrev pub annotate : Text → List Text → Pod → Pod
annotate key values pod =
    if is_nil values then pod else set_annotation pod key (join (codes ",") values)

-- The two annotations at the end.
unfoldable pub record_decision : List Text → Bound → Bound
record_decision sources b = record b {
  pod = annotate annotation_effective sources (annotate annotation_bound b.bound b.pod);
}

abbrev pub untouched : Pod → Bound
untouched pod = record { pod = pod; bound = [] }

module _ (K : LabelSelectors) (c : Client) where
  -- From `resolveEffective` on.
  unfoldable pub bind_declared :
      Text → Pod → List DeclaredModel → Result ReadError Effective → Result Text Bound
  bind_declared namespace pod declared (err e) = ok (untouched pod)
  bind_declared namespace pod declared (ok eff) =
      if not eff.governed
      then ok (untouched pod)
      else bind_all K c namespace (cred_order eff [] declared) (untouched pod) >>= λ b.
          ok (record_decision eff.sources b)

  abbrev pub unless_empty : List DeclaredModel → Pod → Result Text Bound → Result Text Bound
  unless_empty [] pod r = ok (untouched pod)
  unless_empty (d ∷ ds) pod r = r

  -- The error is that of a read of a credential or of the namespace; the request then fails.
  unfoldable pub default_pod : Config → Option Text → Pod → Result Text Bound
  default_pod config request pod =
      let namespace = namespace_from request pod.namespace in
      if exempt config namespace
      then ok (untouched pod)
      else if annotation pod.annotations annotation_disabled == codes "true"
      then ok (untouched pod)
      else elim (declared_models K c namespace pod) [
        | err e ↦ ok (untouched pod)
        | ok declared ↦ unless_empty declared pod (
            bind_declared namespace pod declared
              (resolve_effective K c namespace pod.labels (sa_of pod)))
      ]
