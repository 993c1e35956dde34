-- ===== src/Controller/Secrets.antt =====
-- internal/controller/modelcredential_controller.go: the managed Secrets of a credential. The client
-- that reads and writes Secrets is not code of the repository: a parameter that acts on a state.
pub mod Laws
pub mod Pruned
pub mod Synced
pub mod Store
use token_control.Common.{
  Bool, true, false, List, [], ◌∷◌, ◌++◌, Option, none, some, any, if◌then◌else◌,
}
use token_control.Common.Result.{Result, ok, err}
use token_control.Text.{Text, ◌==◌, codes, non_empty}
use token_control.Api.Selector.{Labels}
use token_control.Api.Credential.{ModelCredential}
use token_control.Webhook.Cluster.{Fetch}
use token_control.Webhook.Pod.{put}
use token_control.Webhook.Deliver.{managed_secret_prefix}

-- The fields of a Secret that the code reads or writes; the data by its keys.
pub record Secret : Type 0 where
  pub namespace : Text
  pub name : Text
  pub labels : Labels
  pub annotations : Labels
  pub kind : Text
  pub entries : Labels
  pub owner : Option Text

-- The answer to a Delete.
pub data Deletion : Type 0 where
  deleted gone : Deletion
  refused : Text → Deletion

-- The client over the states `S` of the API server. `create_or_update` is
-- controllerutil.CreateOrUpdate: it may apply the mutation to the Secret of the namespace and name,
-- or to a fresh one. `set_owner` is controllerutil.SetControllerReference, by the owner's name.
pub record SecretClient (S : Type 0) : Type 0 where
  pub get : S → Text → Text → Fetch Secret
  pub create_or_update : S → Text → Text → (Secret → Result Text Secret) → S × Option Text
  pub list : S → Text → Text → Result Text (List Secret)
  pub delete : S → Secret → S × Deletion
  pub set_owner : Text → Secret → Result Text Secret

abbrev pub label_managed_by : Text
label_managed_by = codes "app.kubernetes.io/managed-by"

abbrev pub label_credential : Text
label_credential = codes "governance.tokencontrol.io/credential"

abbrev annotation_source : Text
annotation_source = codes "governance.tokencontrol.io/source"

abbrev pub managed_name : ModelCredential → Text
managed_name mc = managed_secret_prefix ++ mc.name

unfoldable pub first_non_empty : Text → Text → Text
first_non_empty a b = if non_empty a then a else b

-- What the mutation writes before it sets the owner.
unfoldable pub managed_content : Text → ModelCredential → Text → Secret → Secret
managed_content operator_namespace mc value managed = record managed {
  labels =
      put (put managed.labels label_managed_by (codes "token-control")) label_credential mc.name;
  annotations = put managed.annotations annotation_source (
      first_non_empty mc.spec.secret_ref.namespace operator_namespace
      ++ (codes "/" ++ mc.spec.secret_ref.name));
  kind = codes "Opaque";
  entries = (mc.spec.secret_ref.key, value) ∷ [];
}

module _ {S : Type 0} (C : SecretClient S) where
  -- The closure of `syncSecret`.
  unfoldable pub mutate : Text → ModelCredential → Text → Secret → Result Text Secret
  mutate operator_namespace mc value managed =
      C.set_owner mc.name (managed_content operator_namespace mc value managed)

  unfoldable pub sync_secret : Text → ModelCredential → Text → Text → S → S × Option Text
  sync_secret operator_namespace mc ns value s =
      C.create_or_update s ns (managed_name mc) (mutate operator_namespace mc value)

  -- The loop over the authorized namespaces: an error is logged, and the namespace is not in `synced`.
  unfoldable pub sync_all :
      Text → ModelCredential → Text → List Text → S → List Text → S × List Text
  sync_all operator_namespace mc value [] s synced = (s, synced)
  sync_all operator_namespace mc value (ns ∷ rest) s synced =
      let r = sync_secret operator_namespace mc ns value s in
      sync_all operator_namespace mc value rest r.0
        (elim r.1 [ none ↦ synced ++ (ns ∷ []) | some e ↦ synced ])

  -- The loop over the Secrets that were listed; it stops at the first Delete that fails.
  unfoldable pub prune_listed : List Text → List Secret → S → S × Option Text
  prune_listed authorized [] s = (s, none)
  prune_listed authorized (x ∷ xs) s = elim (any (λ n. n == x.namespace) authorized) [
    | true ↦ prune_listed authorized xs s
    | false ↦ elim (C.delete s x).1 [
      | deleted ↦ prune_listed authorized xs (C.delete s x).0
      | gone ↦ prune_listed authorized xs (C.delete s x).0
      | refused e ↦ ((C.delete s x).0, some e)
    ]
  ]

  unfoldable pub prune_secrets : ModelCredential → List Text → S → S × Option Text
  prune_secrets mc authorized s = elim (C.list s label_credential mc.name) [
    | err e ↦ (s, some e)
    | ok secrets ↦ prune_listed authorized secrets s
  ]
