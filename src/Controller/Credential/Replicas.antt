-- ===== src/Controller/Credential/Replicas.antt =====
-- What a run of `Reconcile` leaves of the managed Secrets of a credential.
use token_control.Common.{
  ◌≡◌, ◌∙◌, sym, ap, inl, inr, refl, true, ℕ, List, [], Option, some, any, arith,
}
use token_control.Common.Sort.{sort, any-sort}
use token_control.Common.Result.{Result, ok, err, ◌>>=◌, >>=-returns, Result-cases}
use token_control.Text.{Text, ◌==◌, before}
use token_control.Api.Selector.{entry, LabelSelectors}
use token_control.Api.Credential.{ModelCredential, ModelCredentialStatus}
use token_control.Webhook.Cluster.{found, Client}
use token_control.Controller.Conditions.{Conditions}
use token_control.Controller.Capacity.{referencing_policies}
use token_control.Controller.Replication.{authorized_namespaces}
use token_control.Controller.Replication.Agreement.{has}
use token_control.Controller.Replication.Keys.{authorized_namespaces-Distinct}
use token_control.Controller.Secrets.{
  Secret, SecretClient, first_non_empty, label_credential, managed_name, sync_all, prune_secrets,
}
use token_control.Controller.Secrets.Laws.{SecretLaws, Labelled, Deletes}
use token_control.Controller.Secrets.Pruned.{
  prune_secrets-authorizes, prune_secrets-keeps, prune_secrets-done,
}
use token_control.Controller.Secrets.Synced.{Replica, sync_all-Replica, sync_all-visited}
use token_control.Controller.Credential.{
  StoredCredential, CredentialGauges, CredentialOutcome, update, synced_status, report, MapRange,
  RangeLaws, replicate, reconcile_source, reconcile_credential,
}

-- The source Secret of the credential has the value under the key.
abbrev pub Sourced : {S : Type 0} → SecretClient S → Text → ModelCredential → Text → S → Type 0
Sourced C operator_namespace mc value st =
    (src : Secret) × (C.get st (first_non_empty mc.spec.secret_ref.namespace operator_namespace)
        mc.spec.secret_ref.name
      ≡ found src)
    × (entry src.entries mc.spec.secret_ref.key ≡ some value)

module _ (K : LabelSelectors) (D : Conditions) (c : Client) {S : Type 0} (C : SecretClient S)
    (M : MapRange) (operator_namespace : Text) (s : StoredCredential) (st : S) where
  -- The states after the two loops.
  abbrev pub replicas : Text → List Text → S × List Text
  replicas value authorized =
      sync_all C operator_namespace s.credential value (M.visit authorized) st []

  abbrev pub pruned : Text → List Text → S × Option Text
  pruned value authorized = prune_secrets C s.credential authorized (replicas value authorized).0

  abbrev pub run : S × Result Text (Option CredentialOutcome)
  run = reconcile_credential K D c C M operator_namespace (found s) st

  pub run-at :
      (value : Text) (authorized : List Text)
      → Sourced C operator_namespace s.credential value st
      → authorized_namespaces K c.list_namespaces s.credential ≡ ok authorized
      → run ≡ (
        (pruned value authorized).0,
        report D c s (sort before (replicas value authorized).1) >>= λ o. ok (some o),
      )
  unfolding reconcile_credential reconcile_source replicate
  run-at value authorized (src, here, has_key) e =
      rw (here, has_key, e, reconcile_source, replicate) refl

  pub run-unlisted :
      (value : Text) (x : Text)
      → Sourced C operator_namespace s.credential value st
      → authorized_namespaces K c.list_namespaces s.credential ≡ err x
      → run ≡ (st, err x)
  unfolding reconcile_credential reconcile_source replicate
  run-unlisted value x (src, here, has_key) e =
      rw (here, has_key, e, reconcile_source, replicate) refl

  -- Each namespace of the first loop has its replica, and the second loop keeps it.
  pub loops-Replica :
      (value : Text) (authorized : List Text) (n : Text)
      → SecretLaws C
      → RangeLaws M
      → authorized_namespaces K c.list_namespaces s.credential ≡ ok authorized
      → has n (replicas value authorized).1 ≡ true
      → Replica C s.credential value (pruned value authorized).0 n
  loops-Replica value authorized n L R e h =
      let keys = authorized_namespaces-Distinct K c.list_namespaces s.credential authorized e in
      let (x, here, entries, labelled) =
        sync_all-Replica C L operator_namespace s.credential value (M.visit authorized) st []
          (R.visit-Distinct authorized keys) (λ m k. absurd (ground arith))
          (λ m k. absurd (ground arith)) n h in
      let visited =
        sync_all-visited C L operator_namespace s.credential value (M.visit authorized) st [] n h in
      let allowed : has n authorized ≡ true = sym (R.visit-same authorized n) ∙ visited in
      (
        x,
        prune_secrets-keeps C L s.credential authorized _ n (managed_name s.credential) x here
            (inl allowed),
        entries,
        labelled,
      )

  report-synced :
      (synced : List Text) (w : ModelCredentialStatus) (seconds : ℕ) (g : Option CredentialGauges)
      → (report D c s synced >>= λ o. ok (some o)) ≡ ok (some (update w seconds g))
      → w.synced_namespaces ≡ synced
  unfolding report synced_status
  report-synced synced w seconds g h =
      let (o, made, same) = >>=-returns (report D c s synced) (λ o. ok (some o)) h in
      let (r, _, e) =
        >>=-returns
          (referencing_policies s.credential.name c.list_cluster_policies c.list_all_policies) _
          made in
      ground arith

  -- Where the source Secret has a value and the status is written: each namespace that it reports as
  -- synced has the managed Secret of the credential, with the value under the key and with the label.
  pub reconcile_credential-replicates :
      (value : Text) (w : ModelCredentialStatus) (seconds : ℕ) (g : Option CredentialGauges)
      (n : Text)
      → SecretLaws C
      → RangeLaws M
      → Sourced C operator_namespace s.credential value st
      → run.1 ≡ ok (some (update w seconds g))
      → any (λ k. k == n) w.synced_namespaces ≡ true
      → Replica C s.credential value run.0 n
  reconcile_credential-replicates value w seconds g n L R source h synced =
      elim (Result-cases (authorized_namespaces K c.list_namespaces s.credential)) [
        | inr (x, e) ↦ absurd (ground (arith, (rw (run-unlisted value x source e) at h)))
        | inl (authorized, e) ↦
            let same = report-synced _ w seconds g (rw (run-at value authorized source e) at h) in
            let visited : has n (replicas value authorized).1 ≡ true =
              sym (any-sort before (λ k. k == n) (replicas value authorized).1)
              ∙ (ap (has n) (sym same) ∙ synced) in
            rw (run-at value authorized source e) (loops-Replica value authorized n L R e visited)
      ]

  -- Where the source Secret has a value, the authorized namespaces are found, and the List and each
  -- Delete succeed: after the run, each Secret that carries the label of the credential is in an
  -- authorized namespace, whatever else fails.
  pub reconcile_credential-authorizes :
      (value : Text) (authorized : List Text) (ns name : Text) (y : Secret)
      → SecretLaws C
      → Deletes C
      → Sourced C operator_namespace s.credential value st
      → authorized_namespaces K c.list_namespaces s.credential ≡ ok authorized
      → C.get run.0 ns name ≡ found y
      → Labelled label_credential s.credential.name y
      → any (λ k. k == ns) authorized ≡ true
  reconcile_credential-authorizes value authorized ns name y L deletes source e here labelled =
      prune_secrets-authorizes C L s.credential authorized (replicas value authorized).0 ns name y
        (prune_secrets-done C L s.credential authorized _ deletes)
        (rw (run-at value authorized source e) at here) labelled
