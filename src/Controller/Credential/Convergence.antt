-- ===== src/Controller/Credential/Convergence.antt =====
-- Where no call fails, one run of `Reconcile` brings the replicas to the authorized namespaces.
use token_control.Common.{◌≡◌, ◌↔◌, ◌∙◌, refl, true, List, [], some, any, All}
use token_control.Common.Result.{ok, ◌>>=◌}
use token_control.Text.{Text, ◌==◌}
use token_control.Api.Selector.{Labels, LabelSelectors}
use token_control.Api.Policies.{ClusterTokenPolicy, TokenPolicy}
use token_control.Api.Credential.{ModelCredentialStatus}
use token_control.Webhook.Cluster.{found, Client, credential_authorizes}
use token_control.Controller.Conditions.{Conditions}
use token_control.Controller.Capacity.{referencing_policies}
use token_control.Controller.Replication.{authorized_namespaces}
use token_control.Controller.Replication.Agreement.{authorized_namespaces-authorizes}
use token_control.Controller.Secrets.{SecretClient, managed_name}
use token_control.Controller.Secrets.Laws.{SecretLaws, Deletes, Writes}
use token_control.Controller.Secrets.Synced.{Replica, sync_all_complete}
use token_control.Controller.Credential.{
  StoredCredential, CredentialGauges, update, report, synced_status, MapRange, RangeLaws,
}
use token_control.Controller.Credential.Replicas.{
  Sourced, run, run-at, loops-Replica, reconcile_credential-authorizes,
}

module _ (K : LabelSelectors) (D : Conditions) (c : Client) {S : Type 0} (C : SecretClient S)
    (M : MapRange) (operator_namespace : Text) (s : StoredCredential) (st : S) where
  report-returns :
      (clusters : List ClusterTokenPolicy) (policies : List TokenPolicy) (synced : List Text)
      → c.list_cluster_policies ≡ ok clusters
      → c.list_all_policies ≡ ok policies
      → (w : ModelCredentialStatus) × (g : CredentialGauges) × ((report D c s synced >>= λ o.
            ok (some o))
          ≡ ok (some (update w 600 (some g))))
        × (w.secret_resolved ≡ true)
  unfolding report synced_status referencing_policies
  report-returns clusters policies synced h k = rw (h, k) (_, _, refl, refl)

  -- Where the source Secret has a value, the policies and the authorized namespaces are found, and no
  -- call on a Secret fails: the run writes a status with the source resolved and is due again in 600
  -- seconds, and after it the namespaces with a replica are exactly the authorized ones.
  pub reconcile_credential-converges :
      (value : Text) (authorized : List Text) (clusters : List ClusterTokenPolicy)
      (policies : List TokenPolicy)
      → SecretLaws C
      → RangeLaws M
      → Deletes C
      → Writes C
      → Sourced C operator_namespace s.credential value st
      → authorized_namespaces K c.list_namespaces s.credential ≡ ok authorized
      → c.list_cluster_policies ≡ ok clusters
      → c.list_all_policies ≡ ok policies
      → ((w : ModelCredentialStatus) × (g : CredentialGauges) × ((run K D c C M operator_namespace s
              st).1
            ≡ ok (some (update w 600 (some g))))
          × (w.secret_resolved ≡ true))
        × ((n : Text)
            → (any (λ k. k == n) authorized ≡ true)
              ↔ Replica C s.credential value (run K D c C M operator_namespace s st).0 n)
  reconcile_credential-converges value authorized clusters policies L R deletes writes source e h
        k =
      (
        rw (run-at K D c C M operator_namespace s st value authorized source e)
            (report-returns clusters policies _ h k),
        λ n. (
          λ allowed.
              let complete =
                sync_all_complete C L operator_namespace s.credential value (M.visit authorized) st
                  [] writes in
              rw (run-at K D c C M operator_namespace s st value authorized source e) (
                loops-Replica K D c C M operator_namespace s st value authorized n L R e
                  (rw complete (R.visit-same authorized n ∙ allowed))),
          λ (x, here, entries, labelled).
              reconcile_credential-authorizes K D c C M operator_namespace s st value authorized n
                (managed_name s.credential) x L deletes source e here labelled,
        ),
      )

  -- In the conditions of `reconcile_credential-converges`, where moreover the namespaces are listed with
  -- the labels that a Get of each returns: the pod webhook authorizes the credential in a namespace of
  -- the list exactly where the Secret that it binds is found after the run, with the value.
  pub credential_authorizes-Replica :
      (value : Text) (authorized : List Text) (clusters : List ClusterTokenPolicy)
      (policies : List TokenPolicy) (namespaces : List (Text × Labels)) (n : Text)
      → SecretLaws C
      → RangeLaws M
      → Deletes C
      → Writes C
      → Sourced C operator_namespace s.credential value st
      → c.list_namespaces ≡ ok namespaces
      → authorized_namespaces K (ok namespaces) s.credential ≡ ok authorized
      → c.list_cluster_policies ≡ ok clusters
      → c.list_all_policies ≡ ok policies
      → All (λ x. c.get_namespace x.0 ≡ found x.1) namespaces
      → any (λ x. x.0 == n) namespaces ≡ true
      → (credential_authorizes K c s.credential n ≡ ok true)
        ↔ Replica C s.credential value (run K D c C M operator_namespace s st).0 n
  credential_authorizes-Replica value authorized clusters policies namespaces n L R deletes writes
        source listing e h k labels listed =
      let webhook =
        authorized_namespaces-authorizes K c s.credential namespaces authorized n e labels listed in
      let run_found =
        (reconcile_credential-converges value authorized clusters policies L R deletes writes source
            (rw listing e) h k).1
          n in
      (λ a. run_found.0 (webhook.1 a), λ r. webhook.0 (run_found.1 r))
