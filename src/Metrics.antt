-- ===== src/Metrics.antt =====
-- internal/metrics/metrics.go: the collectors and their registry. The package of Prometheus is not code
-- of the repository; a sample is the argument of a call of it.
mod Tests
pub mod Emitted
pub mod Decisions
pub mod Labels
use token_control.Common.{List, [], ◌∷◌}
use token_control.Common.Int.{ℤ}
use token_control.Text.{Text, codes}

pub data CollectorType : Type 0 where
  counter gauge : CollectorType

-- A CounterVec or a GaugeVec, without its help text.
pub record Collector : Type 0 where
  pub type : CollectorType
  pub name : Text
  pub labels : List Text

abbrev pub admission_decisions : Collector
admission_decisions = record {
  type = counter;
  name = codes "tokencontrol_admission_decisions_total";
  labels = codes "decision" ∷ codes "namespace" ∷ codes "enforcement" ∷ [];
}

abbrev pub model_violations : Collector
model_violations = record {
  type = counter;
  name = codes "tokencontrol_model_violations_total";
  labels = codes "namespace" ∷ codes "provider" ∷ codes "model" ∷ codes "enforcement" ∷ [];
}

abbrev pub credentials_injected : Collector
credentials_injected = record {
  type = counter;
  name = codes "tokencontrol_credentials_injected_total";
  labels = codes "namespace" ∷ codes "credential" ∷ [];
}

abbrev pub credential_synced_namespaces : Collector
credential_synced_namespaces = record {
  type = gauge;
  name = codes "tokencontrol_credential_synced_namespaces";
  labels = codes "credential" ∷ [];
}

abbrev pub credential_capacity_tpm : Collector
credential_capacity_tpm = record {
  type = gauge;
  name = codes "tokencontrol_credential_capacity_tokens_per_minute";
  labels = codes "credential" ∷ [];
}

abbrev pub credential_allocated_tpm : Collector
credential_allocated_tpm = record {
  type = gauge;
  name = codes "tokencontrol_credential_allocated_tokens_per_minute";
  labels = codes "credential" ∷ [];
}

abbrev pub credential_oversubscribed : Collector
credential_oversubscribed = record {
  type = gauge;
  name = codes "tokencontrol_credential_oversubscribed";
  labels = codes "credential" ∷ [];
}

abbrev pub effective_models_gauge : Collector
effective_models_gauge = record {
  type = gauge;
  name = codes "tokencontrol_effective_models";
  labels = codes "namespace" ∷ codes "policy" ∷ [];
}

abbrev pub model_claim_allowed_models : Collector
model_claim_allowed_models = record {
  type = gauge;
  name = codes "tokencontrol_modelclaim_allowed_models";
  labels = codes "namespace" ∷ codes "claim" ∷ [];
}

abbrev pub gateway_artifacts : Collector
gateway_artifacts = record {
  type = gauge;
  name = codes "tokencontrol_gateway_artifacts";
  labels = codes "namespace" ∷ codes "type" ∷ [];
}

abbrev pub tokens_consumed : Collector
tokens_consumed = record {
  type = counter;
  name = codes "tokencontrol_tokens_consumed_total";
  labels = codes "namespace" ∷ codes "workload" ∷ codes "provider" ∷ codes "model" ∷ [];
}

-- What `init` registers.
abbrev pub registered : List Collector
registered =
    admission_decisions ∷ model_violations ∷ credentials_injected ∷ credential_synced_namespaces
    ∷ credential_capacity_tpm ∷ credential_allocated_tpm ∷ credential_oversubscribed
    ∷ effective_models_gauge ∷ gateway_artifacts ∷ tokens_consumed ∷ model_claim_allowed_models ∷ []

-- `Inc` and `Set`. The float64 that a gauge is set to is an integer in each call.
pub data Change : Type 0 where
  inc : Change
  set : ℤ → Change

-- A call on the series of a collector that `WithLabelValues` gives.
pub record Sample : Type 0 where
  pub collector : Collector
  pub values : List Text
  pub change : Change
