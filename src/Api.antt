-- ===== src/Api.antt =====
-- api/v1alpha1: the custom resources. A pointer that may be nil is an Option, a string enum has a
-- constructor for the empty string and one for a text that the schema does not list, int64 and
-- int32 are integers. Values are immutable, so DeepCopy is the identity.
pub mod Selector
pub mod Policies
pub mod Credential
pub mod Claim
pub mod Condition
use token_control.Common.{Bool, true, false, Option}
use token_control.Common.Int.{ℤ}
use token_control.Text.{Text}

pub data EnforcementMode : Type 0 where
  unset enforce audit disabled : EnforcementMode
  other : Text → EnforcementMode

pub data PermissionAction : Type 0 where
  unset allow deny : PermissionAction
  other : Text → PermissionAction

pub record TokenQuota : Type 0 where
  pub tokens_per_minute : Option ℤ
  pub requests_per_minute : Option ℤ
  pub tokens_per_day : Option ℤ
  pub tokens_per_month : Option ℤ

pub record CredentialReference : Type 0 where
  pub name : Text

pub record ModelPermission : Type 0 where
  pub provider : Text
  pub model : Text
  pub action : PermissionAction
  pub credential_ref : Option CredentialReference
  pub quota : Option TokenQuota

pub data GatewayType : Type 0 where
  unset none envoy_ai_gateway kuadrant : GatewayType
  other : Text → GatewayType

pub record GatewayTargetRef : Type 0 where
  pub group : Text
  pub kind : Text
  pub name : Text
  pub namespace : Text

pub record GatewayIntegration : Type 0 where
  pub type : GatewayType
  pub target_ref : Option GatewayTargetRef

pub record EffectiveModel : Type 0 where
  pub provider : Text
  pub model : Text
  pub action : PermissionAction
  pub credential : Text
  pub source : Text

-- `==` on the enums, as far as the code compares them.
abbrev pub is_allow : PermissionAction → Bool
is_allow allow = true
is_allow _ = false

abbrev pub is_deny : PermissionAction → Bool
is_deny deny = true
is_deny _ = false
