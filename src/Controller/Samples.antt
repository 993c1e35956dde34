-- ===== src/Controller/Samples.antt =====
-- Concrete objects for the tests of the reconcilers.
use token_control.Common.{false, refl, List, [], ◌∷◌, none, some, if◌then◌else◌}
use token_control.Common.Int.{pos}
use token_control.Common.Result.{ok}
use token_control.Text.{Text, ◌==◌, codes}
use token_control.Api.Selector.{Labels}
use token_control.Api.Credential.{ModelCredential}
use token_control.Webhook.Cluster.{found, not_found, Fetch, Client}
use token_control.Policy.Samples.{team_default}
use token_control.Api.Claim.{pending}
use token_control.Controller.Claim.{StoredClaim}
use token_control.Controller.Artifacts.{StoredPolicy}
use token_control.Webhook.Samples.{key_credential, batch_claim, team_client}
use token_control.Controller.Conditions.{Conditions}
use token_control.Controller.Secrets.{Secret, label_credential, managed_name}
use token_control.Controller.Credential.{StoredCredential, MapRange, RangeLaws}

abbrev pub prod : Labels
prod = (codes "tier", codes "prod") ∷ []

abbrev pub namespaces : List (Text × Labels)
namespaces = (codes "team", prod) ∷ (codes "other", []) ∷ []

unfoldable pub namespace_named : Text → Fetch Labels
unfolding ◌==◌
namespace_named name =
    if name == codes "team"
    then found prod
    else if name == codes "other"
    then found []
    else not_found

abbrev pub client : Client
client = record team_client { get_namespace = namespace_named }

abbrev pub prod_credential : ModelCredential
prod_credential = record key_credential {
  spec = record key_credential.spec {
    allowed_namespaces = [];
    namespace_selector = some (record { match_labels = prod; match_expressions = [] });
  };
}

abbrev pub prepend : Conditions
prepend = record { set = λ cs c. c ∷ cs }

abbrev pub in_order : MapRange
in_order = record { visit = λ keys. keys }

abbrev pub in_order-RangeLaws : RangeLaws in_order
in_order-RangeLaws = record { visit-Distinct = λ keys d. d; visit-same = λ keys n. refl }

abbrev pub listing_client : Client
listing_client = record client { list_namespaces = ok namespaces }

abbrev pub stored_credential : StoredCredential
stored_credential = record {
  credential = prod_credential;
  generation = pos 1;
  status = record {
    observed_generation = pos 0;
    secret_resolved = false;
    synced_namespaces = [];
    referencing_policies = [];
    allocated = none;
    available = none;
    conditions = [];
  };
}

-- The source Secret of `prod_credential`.
abbrev pub source_secret : Secret
source_secret = record {
  namespace = prod_credential.spec.secret_ref.namespace;
  name = prod_credential.spec.secret_ref.name;
  labels = [];
  annotations = [];
  kind = codes "Opaque";
  entries = (prod_credential.spec.secret_ref.key, codes "sk-1") ∷ [];
  owner = none;
}

-- A replica of it in a namespace that is not authorized.
abbrev pub stale_replica : Secret
stale_replica = record {
  namespace = codes "other";
  name = managed_name prod_credential;
  labels = (label_credential, prod_credential.name) ∷ [];
  annotations = [];
  kind = codes "Opaque";
  entries = (prod_credential.spec.secret_ref.key, codes "sk-0") ∷ [];
  owner = some prod_credential.name;
}

abbrev pub stored_token_policy : StoredPolicy
stored_token_policy = record {
  policy = team_default;
  generation = pos 1;
  status = record {
    observed_generation = pos 0;
    effective_models = [];
    effective_quota = none;
    bound_credentials = [];
    gateway_ref = [];
    conditions = [];
  };
}

abbrev pub stored_claim : StoredClaim
stored_claim = record {
  claim = batch_claim;
  generation = pos 1;
  status = record {
    observed_generation = pos 0;
    phase = pending;
    resolved_models = [];
    bound_credentials = [];
    conditions = [];
  };
}
