-- ===== src/Webhook/Cluster.antt =====
-- What the webhooks read: the client of the API server, and internal/webhook/v1alpha1/webhook_common.go as far
-- as it asks the client. The client is not code of the repository: a parameter, by its answers.
use token_control.Common.{
  ◌≡◌, ◌⊎◌, inl, inr, refl, Bool, true, false, List, [], Option, none, some, any, is_nil, arith,
  if◌then◌else◌,
}
use token_control.Common.Result.{Result, ok, err, ◌>>=◌, map_err, Result-cases}
use token_control.Text.{Text, ◌==◌}
use token_control.Api.Selector.{Labels, LabelSelectors}
use token_control.Api.Policies.{ClusterTokenPolicy, TokenPolicy}
use token_control.Api.Credential.{ModelCredential}
use token_control.Api.Claim.{ModelClaim}
use token_control.Policy.Selector.{selector_matches}
use token_control.Policy.Effective.{Effective}
use token_control.Policy.Resolve.{ResolveError, resolve}

-- The answer to a Get; `apierrors.IsNotFound` is a case of its own.
pub data Fetch (A : Type 0) : Type 0 where
  found : A → Fetch A
  not_found : Fetch A
  failed : Text → Fetch A

-- To split on an answer and keep the equation.
pub Fetch-cases :
    {A : Type 0} (f : Fetch A)
    → ((a : A) × (f ≡ found a)) ⊎ ((f ≡ not_found) ⊎ ((e : Text) × (f ≡ failed e)))
Fetch-cases (found a) = inl (a, refl)
Fetch-cases not_found = inr (inl refl)
Fetch-cases (failed e) = inr (inr (e, refl))

-- The lists of the cluster and those by namespace; a namespace and a credential by name. A namespace
-- is listed by its name and its labels.
pub record Client : Type 0 where
  pub list_cluster_policies : Result Text (List ClusterTokenPolicy)
  pub list_all_policies : Result Text (List TokenPolicy)
  pub list_namespaces : Result Text (List (Text × Labels))
  pub list_policies : Text → Result Text (List TokenPolicy)
  pub list_claims : Text → Result Text (List ModelClaim)
  pub get_namespace : Text → Fetch Labels
  pub get_credential : Text → Fetch ModelCredential

pub record Config : Type 0 where
  pub operator_namespace : Text
  pub exempt_namespaces : List Text

unfoldable pub exempt : Config → Text → Bool
unfolding ◌==◌
exempt c ns =
    if is_nil ns
    then true
    else if ns == c.operator_namespace
    then true
    else any (λ e. e == ns) c.exempt_namespaces

unfoldable pub namespace_labels : Client → Text → Result Text Labels
namespace_labels c namespace = elim (c.get_namespace namespace) [
  | found labels ↦ ok labels
  | not_found ↦ ok []
  | failed e ↦ err e
]

-- An error of the client, or one of `policy.Resolve`.
pub data ReadError : Type 0 where
  unavailable : Text → ReadError
  unresolved : ResolveError → ReadError

module _ (K : LabelSelectors) (c : Client) where
  unfoldable pub resolve_effective : Text → Option Labels → Text → Result ReadError Effective
  resolve_effective namespace pod_labels sa = do
    clusters ← map_err unavailable c.list_cluster_policies
    policies ← map_err unavailable (c.list_policies namespace)
    labels ← map_err unavailable (namespace_labels c namespace)
    map_err unresolved (
        resolve K (record {
          cluster_policies = clusters;
          namespace_policies = policies;
          namespace = namespace;
          namespace_labels = labels;
          pod_labels = pod_labels;
          service_account = sa;
        }))

  unfoldable pub credential_authorizes : ModelCredential → Text → Result Text Bool
  credential_authorizes mc namespace =
      if any (λ n. n == namespace) mc.spec.allowed_namespaces
      then ok true
      else elim mc.spec.namespace_selector [
        | none ↦ ok false
        | some s ↦ namespace_labels c namespace >>= λ labels. selector_matches K (some s) labels
      ]

-- A decision of the pod webhook is that of the lists and the labels that it has read.
pub resolve_effective-ok :
    (K : LabelSelectors) (c : Client) (namespace : Text) (pod_labels : Option Labels) (sa : Text)
    (e : Effective)
    → resolve_effective K c namespace pod_labels sa ≡ ok e
    → (clusters : List ClusterTokenPolicy) × (policies : List TokenPolicy) × (labels : Labels)
      × (c.list_cluster_policies ≡ ok clusters)
      × (c.list_policies namespace ≡ ok policies)
      × (namespace_labels c namespace ≡ ok labels)
      × (resolve K (record {
        cluster_policies = clusters;
        namespace_policies = policies;
        namespace = namespace;
        namespace_labels = labels;
        pod_labels = pod_labels;
        service_account = sa;
      })
          ≡ ok e)
unfolding resolve_effective
resolve_effective-ok K c namespace pod_labels sa e h = elim (Result-cases c.list_cluster_policies) [
  | inr (x, hc) ↦ absurd (ground arith)
  | inl (clusters, hc) ↦ elim (Result-cases (c.list_policies namespace)) [
    | inr (x, hp) ↦ absurd (ground arith)
    | inl (policies, hp) ↦ elim (Result-cases (namespace_labels c namespace)) [
      | inr (x, hl) ↦ absurd (ground arith)
      | inl (labels, hl) ↦ (clusters, policies, labels, hc, hp, hl, ground arith)
    ]
  ]
]
