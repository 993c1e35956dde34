-- ===== src/Api/Claim.antt =====
-- ModelClaim: what the code reads of the spec, and the phases of the status.
use token_control.Common.{List, Option}
use token_control.Common.Int.{ℤ}
use token_control.Text.{Text}
use token_control.Api.{CredentialReference, EffectiveModel}
use token_control.Api.Condition.{Condition}
use token_control.Api.Selector.{WorkloadSelector}

pub data ModelClaimPhase : Type 0 where
  pending bound denied : ModelClaimPhase

pub record ModelRequest : Type 0 where
  pub provider : Text
  pub model : Text
  pub credential_ref : Option CredentialReference

pub record ModelClaimSpec : Type 0 where
  pub selector : Option WorkloadSelector
  pub models : List ModelRequest

pub record ModelClaim : Type 0 where
  pub namespace : Text
  pub name : Text
  pub spec : ModelClaimSpec

pub record ModelClaimStatus : Type 0 where
  pub observed_generation : ℤ
  pub phase : ModelClaimPhase
  pub resolved_models : List EffectiveModel
  pub bound_credentials : List Text
  pub conditions : List Condition
