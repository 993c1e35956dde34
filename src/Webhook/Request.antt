-- ===== src/Webhook/Request.antt =====
-- `ValidateCreate`, `ValidateUpdate` and `ValidateDelete` of the five validators of
-- internal/webhook/v1alpha1.
use token_control.Common.{List, [], Option}
use token_control.Text.{Text}
use token_control.Api.Selector.{LabelSelectors}
use token_control.Api.Policies.{ClusterTokenPolicy, TokenPolicy}
use token_control.Api.Claim.{ModelClaim}
use token_control.Api.Credential.{ModelCredential}
use token_control.Webhook.Cluster.{Fetch, Client, Config}
use token_control.Webhook.Pod.{Pod}
use token_control.Webhook.Validate.{Response, admitted, validate}
use token_control.Webhook.Admit.{Admission, validate_cluster_policy, validate_token_policy}
use token_control.Webhook.Admit.Bindings.{validate_claim, validate_credential}

-- The request, by its operation: an update has the old object and the new one.
pub data AdmissionRequest (A : Type 0) : Type 0 where
  create : A → AdmissionRequest A
  update : A → A → AdmissionRequest A
  delete : A → AdmissionRequest A

-- `return nil, nil`
abbrev pub allowed : Admission
allowed = record { warnings = []; problems = [] }

module _ (K : LabelSelectors) (c : Client) where
  unfoldable pub review_cluster_policy : AdmissionRequest ClusterTokenPolicy → Admission
  review_cluster_policy (create p) = validate_cluster_policy K c p
  review_cluster_policy (update old p) = validate_cluster_policy K c p
  review_cluster_policy (delete p) = allowed

  unfoldable pub review_token_policy : AdmissionRequest TokenPolicy → Admission
  review_token_policy (create p) = validate_token_policy K c p
  review_token_policy (update old p) = validate_token_policy K c p
  review_token_policy (delete p) = allowed

  unfoldable pub review_claim : AdmissionRequest ModelClaim → Admission
  review_claim (create m) = validate_claim K c m
  review_claim (update old m) = validate_claim K c m
  review_claim (delete m) = allowed

  unfoldable pub review_credential :
      (Text → Text → Fetch (List (Text × Text)))
      → Text
      → AdmissionRequest ModelCredential
      → Admission
  review_credential get_secret operator_namespace (create mc) =
      validate_credential K c get_secret operator_namespace mc
  review_credential get_secret operator_namespace (update old mc) =
      validate_credential K c get_secret operator_namespace mc
  review_credential get_secret operator_namespace (delete mc) = allowed

  unfoldable pub review_pod : Config → Option Text → AdmissionRequest Pod → Response
  review_pod config namespace (create pod) = validate K c config namespace pod
  review_pod config namespace (update old pod) = validate K c config namespace pod
  review_pod config namespace (delete pod) = admitted
