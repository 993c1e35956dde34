-- ===== src/Api/Credential.antt =====
-- ModelCredential: the spec and the status.
use token_control.Common.{Bool, List, Option}
use token_control.Common.Int.{ℤ}
use token_control.Text.{Text}
use token_control.Api.{TokenQuota}
use token_control.Api.Condition.{Condition}
use token_control.Api.Selector.{LabelSelector}

pub data InjectionMode : Type 0 where
  unset env projected_volume none : InjectionMode
  other : Text → InjectionMode

pub record SecretKeySelector : Type 0 where
  pub name : Text
  pub namespace : Text
  pub key : Text

pub record CredentialInjection : Type 0 where
  pub mode : InjectionMode
  pub env_name : Text
  pub mount_path : Text

pub record ModelCredentialSpec : Type 0 where
  pub provider : Text
  pub models : List Text
  pub secret_ref : SecretKeySelector
  pub allowed_namespaces : List Text
  pub namespace_selector : Option LabelSelector
  pub injection : Option CredentialInjection
  pub capacity : Option TokenQuota

pub record ModelCredential : Type 0 where
  pub name : Text
  pub spec : ModelCredentialSpec

pub record ModelCredentialStatus : Type 0 where
  pub observed_generation : ℤ
  pub secret_resolved : Bool
  pub synced_namespaces : List Text
  pub referencing_policies : List Text
  pub allocated : Option TokenQuota
  pub available : Option TokenQuota
  pub conditions : List Condition
