-- ===== src/Api/Policies.antt =====
-- ClusterTokenPolicy and TokenPolicy: the fields that the code reads or writes.
use token_control.Common.{ℕ, List, Option}
use token_control.Common.Int.{ℤ}
use token_control.Text.{Text}
use token_control.Api.{
  EnforcementMode, TokenQuota, CredentialReference, ModelPermission, GatewayIntegration,
  EffectiveModel,
}
use token_control.Api.Condition.{Condition}
use token_control.Api.Selector.{LabelSelector, WorkloadSelector}

pub record ClusterTokenPolicySpec : Type 0 where
  pub namespace_selector : Option LabelSelector
  pub models : List ModelPermission
  pub quota : Option TokenQuota
  pub enforcement : EnforcementMode
  pub default_credential_ref : Option CredentialReference
  pub gateway : Option GatewayIntegration

pub record ClusterTokenPolicy : Type 0 where
  pub name : Text
  pub spec : ClusterTokenPolicySpec

pub record TokenPolicySpec : Type 0 where
  pub selector : Option WorkloadSelector
  pub models : List ModelPermission
  pub quota : Option TokenQuota
  pub enforcement : EnforcementMode
  pub priority : ℤ
  pub gateway : Option GatewayIntegration

pub record TokenPolicy : Type 0 where
  pub namespace : Text
  pub name : Text
  pub spec : TokenPolicySpec

pub record ClusterTokenPolicyStatus : Type 0 where
  pub observed_generation : ℤ
  pub model_count : ℕ
  pub applied_namespaces : List Text
  pub conditions : List Condition

pub record TokenPolicyStatus : Type 0 where
  pub observed_generation : ℤ
  pub effective_models : List EffectiveModel
  pub effective_quota : Option TokenQuota
  pub bound_credentials : List Text
  pub gateway_ref : Text
  pub conditions : List Condition
