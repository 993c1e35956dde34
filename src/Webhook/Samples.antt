-- ===== src/Webhook/Samples.antt =====
-- A cluster and a pod for the tests.
use token_control.Common.{List, [], ◌∷◌, none, some, if◌then◌else◌}
use token_control.Common.Result.{ok}
use token_control.Text.{Text, ◌==◌, codes}
use token_control.Api.Credential.{ModelCredential}
use token_control.Api.Claim.{ModelRequest, ModelClaim}
use token_control.Policy.Samples.{openai, mistral, team_default, batch_only, by_account}
use token_control.Webhook.Cluster.{Fetch, found, not_found, Client, Config}
use token_control.Webhook.Pod.{literal, Container, Pod}

abbrev pub key_credential : ModelCredential
key_credential = record {
  name = codes "key";
  spec = record {
    provider = codes "openai";
    models = [];
    secret_ref = record { name = codes "openai"; namespace = codes "keys"; key = codes "token" };
    allowed_namespaces = codes "team" ∷ [];
    namespace_selector = none;
    injection = none;
    capacity = none;
  };
}

abbrev pub request : Text → Text → ModelRequest
request provider model = record { provider = provider; model = model; credential_ref = none }

abbrev pub batch_claim : ModelClaim
batch_claim = record {
  namespace = codes "team";
  name = codes "batch";
  spec = record {
    selector = by_account (codes "batch");
    models =
        request (codes "openai") (codes "gpt-4o") ∷ request (codes "OpenAI") (codes "GPT-4o") ∷ [];
  };
}

abbrev pub team_claims : List ModelClaim
team_claims = batch_claim ∷ []

unfoldable pub credential_named : Text → Fetch ModelCredential
unfolding ◌==◌
credential_named name = if name == codes "key" then found key_credential else not_found

abbrev pub team_client : Client
team_client = record {
  list_cluster_policies = ok (openai ∷ mistral ∷ []);
  list_all_policies = ok (team_default ∷ batch_only ∷ []);
  list_namespaces = ok ((codes "team", []) ∷ []);
  list_policies = λ ns. ok (team_default ∷ batch_only ∷ []);
  list_claims = λ ns. ok team_claims;
  get_namespace = λ name. found [];
  get_credential = credential_named;
}

abbrev pub config : Config
config = record {
  operator_namespace = codes "token-control";
  exempt_namespaces = codes "kube-system" ∷ [];
}

abbrev pub batch_container : Container
batch_container = record {
  env = record { name = codes "LOG"; source = literal (codes "info") } ∷ [];
  volume_mounts = [];
}

abbrev pub batch_pod : Text → Pod
batch_pod models = record {
  name = codes "batch-0";
  namespace = codes "team";
  labels = some [];
  annotations = (codes "governance.tokencontrol.io/models", models) ∷ [];
  service_account_name = codes "batch";
  containers = batch_container ∷ [];
  init_containers = [];
  volumes = [];
}
