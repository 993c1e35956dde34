-- ===== src/Controller/Credential.antt =====
-- internal/controller/modelcredential_controller.go: `Reconcile`, over the states of the managed Secrets.
mod Tests
pub mod Replicas
pub mod Convergence
pub mod Failures
use token_control.Common.{
  ◌≡◌, ℕ, Bool, true, false, List, [], ◌∷◌, Option, none, some, any, length, if◌then◌else◌,
}
use token_control.Common.Int.{ℤ}
use token_control.Common.Sort.{sort, Distinct}
use token_control.Common.Result.{Result, ok, err, ◌>>=◌}
use token_control.Text.{Text, ◌==◌, before, codes}
use token_control.Text.Laws.{OtherText}
use token_control.Api.{TokenQuota}
use token_control.Api.Condition.{Condition}
use token_control.Api.Selector.{entry, Labels, LabelSelectors}
use token_control.Api.Credential.{ModelCredential, ModelCredentialStatus}
use token_control.Webhook.Cluster.{Fetch, found, not_found, failed, Client}
use token_control.Controller.Conditions.{Conditions, set_condition}
use token_control.Controller.Capacity.{
  Oversubscription, no_capacity_declared, allocation_exceeds_capacity, within_capacity,
  CapacityStatus, referencing_policies, reconcile_capacity,
}
use token_control.Controller.Replication.{authorized_namespaces}
use token_control.Controller.Secrets.{
  Secret, SecretClient, first_non_empty, sync_all, prune_secrets,
}

-- The object that is read: the credential with its generation and its status.
pub record StoredCredential : Type 0 where
  pub credential : ModelCredential
  pub generation : ℤ
  pub status : ModelCredentialStatus

-- The gauges of internal/metrics that a run sets.
pub record CredentialGauges : Type 0 where
  pub capacity_tpm : ℤ
  pub allocated_tpm : ℤ
  pub oversubscribed : ℤ
  pub synced_namespaces : ℕ

-- The status that is written, with the seconds until the next run, and the gauges where they are set.
pub data CredentialOutcome : Type 0 where
  update : ModelCredentialStatus → ℕ → Option CredentialGauges → CredentialOutcome

-- The condition Oversubscribed.
abbrev pub oversubscription_holds : Oversubscription → Bool
oversubscription_holds no_capacity_declared = false
oversubscription_holds allocation_exceeds_capacity = true
oversubscription_holds within_capacity = false

abbrev pub oversubscription_reason : Oversubscription → Text
oversubscription_reason no_capacity_declared = codes "NoCapacityDeclared"
oversubscription_reason allocation_exceeds_capacity = codes "AllocationExceedsCapacity"
oversubscription_reason within_capacity = codes "WithinCapacity"

module _ (C : Conditions) where
  abbrev pub source_condition : Bool → Text → ℤ → ModelCredentialStatus → ModelCredentialStatus
  source_condition holds reason generation st = record st {
    secret_resolved = holds;
    conditions = set_condition C (codes "SecretResolved") holds reason generation st.conditions;
  }

  unfoldable pub secret_not_found : ℤ → ModelCredentialStatus → ModelCredentialStatus
  secret_not_found generation st =
      let marked = source_condition false (codes "SecretNotFound") generation st in
      record marked {
        conditions =
            set_condition C (codes "Ready") false (codes "SecretNotFound") generation
              marked.conditions;
      }

  unfoldable pub key_missing : ℤ → ModelCredentialStatus → ModelCredentialStatus
  key_missing = source_condition false (codes "KeyMissing")

  -- The status after the loops, from the referencing policies and what they allocate.
  unfoldable pub synced_status :
      StoredCredential → List Text → List Text → CapacityStatus → ModelCredentialStatus
  synced_status s synced refs capacity =
      let resolved = source_condition true (codes "Resolved") s.generation s.status in
      record {
        observed_generation = s.generation;
        secret_resolved = true;
        synced_namespaces = synced;
        referencing_policies = refs;
        allocated = capacity.allocated;
        available = capacity.available;
        conditions = set_condition C (codes "Ready") true (codes "Synced") s.generation (
            set_condition C (codes "Oversubscribed")
              (oversubscription_holds capacity.oversubscription)
              (oversubscription_reason capacity.oversubscription) s.generation resolved.conditions);
      }

  unfoldable pub credential_gauges : List Text → CapacityStatus → CredentialGauges
  credential_gauges synced capacity = record {
    capacity_tpm = capacity.capacity_gauge;
    allocated_tpm = capacity.allocated_gauge;
    oversubscribed = capacity.oversubscribed_gauge;
    synced_namespaces = length synced;
  }

  -- From `referencingPolicies` on.
  unfoldable pub report : Client → StoredCredential → List Text → Result Text CredentialOutcome
  report c s synced = do
    r ← referencing_policies s.credential.name c.list_cluster_policies c.list_all_policies
    let capacity = reconcile_capacity s.credential.spec.capacity r.1
    ok (update (synced_status s synced r.0 capacity) 600 (some (credential_gauges synced capacity)))

-- The order in which `range` visits the keys of a map is not code of the repository: a parameter.
pub record MapRange : Type 0 where
  pub visit : List Text → List Text

-- Each key is visited once.
pub record RangeLaws (M : MapRange) : Type 0 where
  pub visit-Distinct :
      (keys : List Text) → Distinct OtherText keys → Distinct OtherText (M.visit keys)
  pub visit-same :
      (keys : List Text) (n : Text) → any (λ k. k == n) (M.visit keys) ≡ any (λ k. k == n) keys

module _ (K : LabelSelectors) (D : Conditions) (c : Client) {S : Type 0} (C : SecretClient S)
    (M : MapRange) (operator_namespace : Text) where
  -- From `authorizedNamespaces` on. That the prune fails is logged.
  unfoldable pub replicate : StoredCredential → Text → S → S × Result Text CredentialOutcome
  replicate s value st = elim (authorized_namespaces K c.list_namespaces s.credential) [
    | err e ↦ (st, err e)
    | ok authorized ↦
        let replicas =
          sync_all C operator_namespace s.credential value (M.visit authorized) st [] in
        let pruned = prune_secrets C s.credential authorized replicas.0 in
        (pruned.0, report D c s (sort before replicas.1))
  ]

  -- From the Get of the source Secret on.
  unfoldable pub reconcile_source : StoredCredential → S → S × Result Text CredentialOutcome
  reconcile_source s st =
      let ref = s.credential.spec.secret_ref in
      elim (C.get st (first_non_empty ref.namespace operator_namespace) ref.name) [
        | not_found ↦ (st, ok (update (secret_not_found D s.generation s.status) 60 none))
        | failed e ↦ (st, err e)
        | found src ↦ elim (entry src.entries ref.key) [
          | none ↦ (st, ok (update (key_missing D s.generation s.status) 60 none))
          | some value ↦ replicate s value st
        ]
      ]

  -- `Reconcile`: none where the credential is gone.
  unfoldable pub reconcile_credential :
      Fetch StoredCredential → S → S × Result Text (Option CredentialOutcome)
  reconcile_credential not_found st = (st, ok none)
  reconcile_credential (failed e) st = (st, err e)
  reconcile_credential (found s) st =
      let r = reconcile_source s st in (r.0, r.1 >>= λ o. ok (some o))
