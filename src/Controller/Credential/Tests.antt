-- ===== src/Controller/Credential/Tests.antt =====
-- Runs of the credential controller on a concrete store, and the theorems at them.
use token_control.Common.{◌≡◌, ◌⊎◌, ◌↔◌, refl, true, false, List, [], ◌∷◌, none, some, any, Option}
use token_control.Common.Sort.{sort}
use token_control.Common.Result.{Result, ok}
use token_control.Text.{Text, ◌==◌, codes, before}
use token_control.Api.Credential.{ModelCredentialStatus}
use token_control.Policy.Selector.{selector_matches}
use token_control.Policy.Samples.{equality_selectors, openai, mistral, team_default, batch_only}
use token_control.Webhook.Cluster.{credential_authorizes}
use token_control.Webhook.Pod.{put}
use token_control.Controller.Samples.{
  namespaces, namespace_named, listing_client, prepend, in_order, in_order-RangeLaws,
  stored_credential, prod_credential, source_secret, stale_replica,
}
use token_control.Controller.Capacity.{referencing_policies}
use token_control.Controller.Replication.{put_key, put_all, put_selected, authorized_namespaces}
use token_control.Controller.Secrets.{
  Secret, first_non_empty, managed_content, mutate, sync_secret, sync_all, prune_listed,
  prune_secrets, managed_name,
}
use token_control.Controller.Secrets.Synced.{Replica}
use token_control.Controller.Secrets.Store.{
  Store, store, blank, store-SecretLaws, store-Deletes, store-Writes,
}
use token_control.Controller.Credential.{
  CredentialGauges, CredentialOutcome, update, reconcile_credential, replicate, reconcile_source,
  report, synced_status,
}
use token_control.Controller.Credential.Replicas.{
  Sourced, run, reconcile_credential-replicates, reconcile_credential-authorizes,
}
use token_control.Controller.Credential.Convergence.{
  reconcile_credential-converges, credential_authorizes-Replica,
}
use token_control.Controller.Credential.Failures.{Ends, reconcile_credential-Ends}
use token_control.Api.Selector.{entry}

abbrev before_run : Store
before_run = source_secret ∷ stale_replica ∷ []

abbrev operator : Text
operator = codes "token-control"

-- The run, with all that it calls.
ran : Store × Result Text (Option CredentialOutcome)
unfolding reconcile_credential replicate reconcile_source authorized_namespaces put_selected put_all
    put_key selector_matches equality_selectors store first_non_empty entry sync_all sync_secret
    mutate managed_content put prune_secrets prune_listed sort before ◌==◌
ran =
    run equality_selectors prepend listing_client store in_order operator stored_credential
      before_run

where_found : List Secret → List Text
where_found [] = []
where_found (x ∷ xs) = x.namespace ∷ where_found xs

-- The stale replica is gone, and the authorized namespace has one.
ran_namespaces : where_found ran.0 ≡ codes "team" ∷ codes "keys" ∷ []
unfolding ran where_found
ran_namespaces = refl

authorized_example :
    authorized_namespaces equality_selectors (ok namespaces) prod_credential
    ≡ ok (codes "team" ∷ [])
unfolding authorized_namespaces put_selected put_all put_key selector_matches equality_selectors
    ◌==◌
authorized_example = refl

sourced : Sourced store operator prod_credential (codes "sk-1") before_run
unfolding store entry first_non_empty ◌==◌
sourced = (source_secret, refl, refl)

reconcile_credential-converges_example :
    ((w : ModelCredentialStatus) × (g : CredentialGauges) × ((run equality_selectors prepend
          listing_client store in_order operator stored_credential before_run).1
        ≡ ok (some (update w 600 (some g))))
      × (w.secret_resolved ≡ true))
    × ((n : Text)
        → (any (λ k. k == n) (codes "team" ∷ []) ≡ true)
          ↔ Replica store prod_credential
              (codes "sk-1")
              (run equality_selectors prepend listing_client store in_order operator
                stored_credential before_run).0
              n)
reconcile_credential-converges_example =
    reconcile_credential-converges equality_selectors prepend listing_client store in_order operator
      stored_credential before_run (codes "sk-1") (codes "team" ∷ []) (openai ∷ mistral ∷ [])
      (team_default ∷ batch_only ∷ []) store-SecretLaws in_order-RangeLaws store-Deletes
      store-Writes sourced authorized_example refl refl

-- The replica that the run creates.
abbrev team_replica : Secret
team_replica =
    record (managed_content operator prod_credential (codes "sk-1")
      (blank (codes "team") (managed_name prod_credential))) { owner = some prod_credential.name }

reconcile_credential-authorizes_example : any (λ k. k == codes "team") (codes "team" ∷ []) ≡ true
unfolding ran store managed_content put ◌==◌
reconcile_credential-authorizes_example =
    reconcile_credential-authorizes equality_selectors prepend listing_client store in_order
      operator stored_credential before_run (codes "sk-1") (codes "team" ∷ []) (codes "team")
      (managed_name prod_credential) team_replica store-SecretLaws store-Deletes sourced
      authorized_example refl refl

status_of : Result Text (Option CredentialOutcome) → ModelCredentialStatus
status_of (ok (some (update w seconds g))) = w
status_of _ = stored_credential.status

gauges_of : Result Text (Option CredentialOutcome) → Option CredentialGauges
gauges_of (ok (some (update w seconds g))) = g
gauges_of _ = none

-- The status and the gauges that the run writes.
written : ModelCredentialStatus
unfolding ran status_of report synced_status
written = status_of ran.1

gauges : Option CredentialGauges
unfolding ran gauges_of report
gauges = gauges_of ran.1

written_namespaces : written.synced_namespaces ≡ codes "team" ∷ []
unfolding written referencing_policies
written_namespaces = refl

reconcile_credential-replicates_example :
    Replica store prod_credential
      (codes "sk-1")
      (run equality_selectors prepend listing_client store in_order operator stored_credential
        before_run).0
      (codes "team")
unfolding ran written gauges referencing_policies ◌==◌
reconcile_credential-replicates_example =
    reconcile_credential-replicates equality_selectors prepend listing_client store in_order
      operator stored_credential before_run (codes "sk-1") written 600 gauges (codes "team")
      store-SecretLaws in_order-RangeLaws sourced refl refl

credential_authorizes-Replica_example :
    (credential_authorizes equality_selectors listing_client prod_credential (codes "team")
      ≡ ok true)
    ↔ Replica store prod_credential
        (codes "sk-1")
        (run equality_selectors prepend listing_client store in_order operator stored_credential
          before_run).0
        (codes "team")
unfolding namespace_named ◌==◌
credential_authorizes-Replica_example =
    credential_authorizes-Replica equality_selectors prepend listing_client store in_order operator
      stored_credential before_run (codes "sk-1") (codes "team" ∷ []) (openai ∷ mistral ∷ [])
      (team_default ∷ batch_only ∷ []) namespaces (codes "team") store-SecretLaws in_order-RangeLaws
      store-Deletes store-Writes sourced refl authorized_example refl refl (refl, (refl, tt)) refl

reconcile_credential-Ends_example :
    ((run equality_selectors prepend listing_client store in_order operator stored_credential []).0
        ≡ [])
      × Ends false
          (run equality_selectors prepend listing_client store in_order operator stored_credential
            []).1
    ⊎ ((value : Text) × (authorized : List Text) × Sourced store operator prod_credential value []
        × (authorized_namespaces equality_selectors (ok namespaces) prod_credential ≡ ok authorized)
        × Ends true
            (run equality_selectors prepend listing_client store in_order operator stored_credential
              []).1)
reconcile_credential-Ends_example =
    reconcile_credential-Ends equality_selectors prepend listing_client store in_order operator
      stored_credential []
