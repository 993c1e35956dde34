-- ===== src/Controller/Watches.antt =====
-- internal/controller: the `SetupWithManager` of the four controllers, by the requests that a change of
-- an object enqueues: the object's own controller reconciles it, and a watched kind goes through a
-- function that lists all objects. The list is what the client answers.
mod Tests
pub mod Fresh
use token_control.Common.{List, [], ◌∷◌, map}
use token_control.Common.Result.{Result, ok, err}
use token_control.Text.{Text}
use token_control.Api.Policies.{ClusterTokenPolicy, TokenPolicy}
use token_control.Api.Credential.{ModelCredential}
use token_control.Api.Claim.{ModelClaim}

-- types.NamespacedName; the namespace of a cluster-scoped object is empty.
pub record NamespacedName : Type 0 where
  pub namespace : Text
  pub name : Text

pub data ObjectKind : Type 0 where
  cluster_token_policy token_policy model_credential model_claim namespace : ObjectKind

-- The object that was created, changed or deleted.
pub record Event : Type 0 where
  pub kind : ObjectKind
  pub key : NamespacedName

-- `client.ObjectKeyFromObject`
abbrev pub cluster_policy_key : ClusterTokenPolicy → NamespacedName
cluster_policy_key p = record { namespace = []; name = p.name }

abbrev pub policy_key : TokenPolicy → NamespacedName
policy_key p = record { namespace = p.namespace; name = p.name }

abbrev pub credential_key : ModelCredential → NamespacedName
credential_key c = record { namespace = []; name = c.name }

abbrev pub claim_key : ModelClaim → NamespacedName
claim_key m = record { namespace = m.namespace; name = m.name }

-- A List that fails enqueues nothing.
abbrev requests_for :
    {A : Type 0} → (A → NamespacedName) → Result Text (List A) → List NamespacedName
requests_for key (err e) = []
requests_for key (ok items) = map key items

unfoldable pub cluster_policies_for_all :
    Result Text (List ClusterTokenPolicy) → List NamespacedName
cluster_policies_for_all = requests_for cluster_policy_key

unfoldable pub token_policies_for_all : Result Text (List TokenPolicy) → List NamespacedName
token_policies_for_all = requests_for policy_key

unfoldable pub credentials_for_all : Result Text (List ModelCredential) → List NamespacedName
credentials_for_all = requests_for credential_key

unfoldable pub claims_for_all : Result Text (List ModelClaim) → List NamespacedName
claims_for_all = requests_for claim_key

unfoldable pub cluster_policy_requests :
    Event → Result Text (List ClusterTokenPolicy) → List NamespacedName
cluster_policy_requests ev all = elim ev.kind [
  | cluster_token_policy ↦ ev.key ∷ []
  | namespace ↦ cluster_policies_for_all all
  | _ ↦ []
]

unfoldable pub policy_requests : Event → Result Text (List TokenPolicy) → List NamespacedName
policy_requests ev all = elim ev.kind [
  | token_policy ↦ ev.key ∷ []
  | cluster_token_policy ↦ token_policies_for_all all
  | model_credential ↦ token_policies_for_all all
  | _ ↦ []
]

unfoldable pub credential_requests :
    Event → Result Text (List ModelCredential) → List NamespacedName
credential_requests ev all = elim ev.kind [
  | model_credential ↦ ev.key ∷ []
  | namespace ↦ credentials_for_all all
  | _ ↦ []
]

unfoldable pub claim_requests : Event → Result Text (List ModelClaim) → List NamespacedName
claim_requests ev all = elim ev.kind [ model_claim ↦ ev.key ∷ [] | _ ↦ claims_for_all all ]
