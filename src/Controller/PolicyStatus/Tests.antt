-- ===== src/Controller/PolicyStatus/Tests.antt =====
-- The run of the policy controller at concrete objects.
use token_control.Common.{none}
use token_control.Policy.Samples.{equality_selectors}
use token_control.Webhook.Cluster.{found}
use token_control.Webhook.Samples.{team_client}
use token_control.Controller.Samples.{prepend, stored_token_policy}
use token_control.Controller.Artifacts.Store.{Store, store}
use token_control.Controller.PolicyStatus.{reconcile_policy}
use token_control.Controller.PolicyStatus.Reported.{Reported, reconcile_policy-Reported}

abbrev empty : Store
empty gvk ns name = none

reconcile_policy-Reported_example :
    Reported equality_selectors prepend team_client store stored_token_policy empty (
      reconcile_policy equality_selectors prepend team_client store
        (found stored_token_policy)
        empty)
reconcile_policy-Reported_example =
    reconcile_policy-Reported equality_selectors prepend team_client store stored_token_policy empty
