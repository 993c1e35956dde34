-- ===== src/Controller/Credential/Failures.antt =====
-- How each run of `Reconcile` ends, by what it finds.
use token_control.Common.{
  ◌≡◌, ◌⊎◌, inl, inr, refl, Bool, true, false, List, Option, none, some, Option-cases,
}
use token_control.Common.Result.{Result, ok, err, ◌>>=◌, Result-cases}
use token_control.Text.{Text}
use token_control.Api.Selector.{entry, LabelSelectors}
use token_control.Api.Credential.{ModelCredentialStatus}
use token_control.Webhook.Cluster.{found, not_found, failed, Client, Fetch-cases}
use token_control.Controller.Conditions.{Conditions}
use token_control.Controller.Capacity.{referencing_policies}
use token_control.Controller.Replication.{authorized_namespaces}
use token_control.Controller.Secrets.{Secret, SecretClient, first_non_empty}
use token_control.Controller.Credential.{
  StoredCredential, CredentialGauges, CredentialOutcome, update, secret_not_found, key_missing,
  report, synced_status, MapRange, reconcile_source, reconcile_credential,
}
use token_control.Controller.Credential.Replicas.{Sourced, run, run-at, run-unlisted}

-- The run returns an error, or it writes a status with the given answer on the source and is due
-- again: in 60 seconds where the source is not resolved, in 600 where it is.
pub data Ends : Bool → Result Text (Option CredentialOutcome) → Type 0 where
  error : {b : Bool} (e : Text) → Ends b (err e)
  waits :
      (w : ModelCredentialStatus)
      → w.secret_resolved ≡ false
      → Ends false (ok (some (update w 60 none)))
  resyncs :
      (w : ModelCredentialStatus) (g : CredentialGauges)
      → w.secret_resolved ≡ true
      → Ends true (ok (some (update w 600 (some g))))

module _ (K : LabelSelectors) (D : Conditions) (c : Client) {S : Type 0} (C : SecretClient S)
    (M : MapRange) (operator_namespace : Text) (s : StoredCredential) (st : S) where
  report-Ends : (synced : List Text) → Ends true (report D c s synced >>= λ o. ok (some o))
  unfolding report synced_status
  report-Ends synced =
      elim (Result-cases
        (referencing_policies s.credential.name c.list_cluster_policies c.list_all_policies)) [
          | inl (r, e) ↦ rw e (resyncs _ _ refl)
          | inr (x, e) ↦ rw e (error x)
        ]

  -- Without a value of the source Secret.
  abbrev Unsourced : Type 0
  Unsourced =
      ((run K D c C M operator_namespace s st).0 ≡ st)
      × Ends false (run K D c C M operator_namespace s st).1

  unsourced-missing :
      C.get st
          (first_non_empty s.credential.spec.secret_ref.namespace operator_namespace)
          s.credential.spec.secret_ref.name
        ≡ not_found
      → Unsourced
  unfolding reconcile_credential reconcile_source secret_not_found
  unsourced-missing e = rw (e, reconcile_source) (refl, waits _ refl)

  unsourced-failed :
      (x : Text)
      → C.get st
          (first_non_empty s.credential.spec.secret_ref.namespace operator_namespace)
          s.credential.spec.secret_ref.name
        ≡ failed x
      → Unsourced
  unfolding reconcile_credential reconcile_source
  unsourced-failed x e = rw (e, reconcile_source) (refl, error x)

  unsourced-key :
      (src : Secret)
      → C.get st
          (first_non_empty s.credential.spec.secret_ref.namespace operator_namespace)
          s.credential.spec.secret_ref.name
        ≡ found src
      → entry src.entries s.credential.spec.secret_ref.key ≡ none
      → Unsourced
  unfolding reconcile_credential reconcile_source key_missing
  unsourced-key src e h = rw (e, h, reconcile_source) (refl, waits _ refl)

  -- A run on a credential that exists ends in one of two ways. Either no Secret is written or deleted,
  -- and it returns an error or reports the source as not resolved and is due again in 60 seconds. Or
  -- the source Secret has a value and the authorized namespaces are found, and it returns an error or
  -- reports the source as resolved and is due again in 600 seconds.
  pub reconcile_credential-Ends :
      ((run K D c C M operator_namespace s st).0 ≡ st)
        × Ends false (run K D c C M operator_namespace s st).1
      ⊎ ((value : Text) × (authorized : List Text) × Sourced C operator_namespace s.credential value
            st
          × (authorized_namespaces K c.list_namespaces s.credential ≡ ok authorized)
          × Ends true (run K D c C M operator_namespace s st).1)
  reconcile_credential-Ends =
      elim (Fetch-cases (
        C.get st (first_non_empty s.credential.spec.secret_ref.namespace operator_namespace)
          s.credential.spec.secret_ref.name)) [
            | inr (inl e) ↦ inl (unsourced-missing e)
            | inr (inr (x, e)) ↦ inl (unsourced-failed x e)
            | inl (src, e) ↦
                elim (Option-cases (entry src.entries s.credential.spec.secret_ref.key)) [
                  | inl h ↦ inl (unsourced-key src e h)
                  | inr (value, h) ↦ sourced value (src, e, h)
                ]
          ]
    where
      sourced :
          (value : Text)
          → Sourced C operator_namespace s.credential value st
          → Unsourced
            ⊎ ((value : Text) × (authorized : List Text) × Sourced C operator_namespace s.credential
                  value st
                × (authorized_namespaces K c.list_namespaces s.credential ≡ ok authorized)
                × Ends true (run K D c C M operator_namespace s st).1)
      sourced value source =
          elim (Result-cases (authorized_namespaces K c.list_namespaces s.credential)) [
            | inr (x, e) ↦ inl (
                rw (run-unlisted K D c C M operator_namespace s st value x source e)
                  (refl, error x))
            | inl (authorized, e) ↦ inr (
              value,
              authorized,
              source,
              e,
              rw (run-at K D c C M operator_namespace s st value authorized source e)
                  (report-Ends _),
            )
          ]
