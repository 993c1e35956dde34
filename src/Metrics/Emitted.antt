-- ===== src/Metrics/Emitted.antt =====
-- The calls on the collectors that internal/webhook/v1alpha1/pod_webhook.go and the reconcilers of
-- internal/controller make. In a run of `PodDefaulter` that fails, those before the failure are left out.
use token_control.Common.{ℕ, List, [], ◌∷◌, map, Option, none, some}
use token_control.Common.Int.{pos}
use token_control.Text.{Text, codes}
use token_control.Api.{EnforcementMode, GatewayType}
use token_control.Api.Policies.{TokenPolicy}
use token_control.Api.Claim.{ModelClaim}
use token_control.Api.Credential.{ModelCredential}
use token_control.Webhook.Validate.{Metric, model_violation, admission_decision, Response}
use token_control.Webhook.Inject.{Bound}
use token_control.Controller.Claim as ClaimRun
use token_control.Controller.PolicyStatus as PolicyRun
use token_control.Controller.Credential as CredentialRun
use token_control.Controller.Credential.{CredentialGauges}
use token_control.Metrics.{
  Collector, Sample, inc, set, admission_decisions, model_violations, credentials_injected,
  credential_synced_namespaces, credential_capacity_tpm, credential_allocated_tpm,
  credential_oversubscribed, effective_models_gauge, model_claim_allowed_models, gateway_artifacts,
}

-- `string(eff.Enforcement)`
unfoldable pub enforcement_text : EnforcementMode → Text
enforcement_text EnforcementMode.unset = []
enforcement_text EnforcementMode.enforce = codes "Enforce"
enforcement_text EnforcementMode.audit = codes "Audit"
enforcement_text EnforcementMode.disabled = codes "Disabled"
enforcement_text (EnforcementMode.other t) = t

-- `string(gw.Type)`
unfoldable pub gateway_text : GatewayType → Text
gateway_text GatewayType.unset = []
gateway_text GatewayType.none = codes "None"
gateway_text GatewayType.envoy_ai_gateway = codes "EnvoyAIGateway"
gateway_text GatewayType.kuadrant = codes "Kuadrant"
gateway_text (GatewayType.other t) = t

abbrev counted : Collector → List Text → Sample
counted c values = record { collector = c; values = values; change = inc }

abbrev gauged : Collector → List Text → ℕ → Sample
gauged c values n = record { collector = c; values = values; change = set (pos n) }

unfoldable pub violation_sample : Text → Text → Text → EnforcementMode → Sample
violation_sample namespace provider model mode =
    counted model_violations (namespace ∷ provider ∷ model ∷ enforcement_text mode ∷ [])

unfoldable pub decision_sample : Text → Text → EnforcementMode → Sample
decision_sample decision namespace mode =
    counted admission_decisions (decision ∷ namespace ∷ enforcement_text mode ∷ [])

-- The calls of `PodValidator`.
unfoldable pub metric_sample : Metric → Sample
metric_sample (model_violation namespace provider model mode) =
    violation_sample namespace provider model mode
metric_sample (admission_decision decision namespace mode) = decision_sample decision namespace mode

unfoldable pub response_samples : Response → List Sample
response_samples r = map metric_sample r.metrics

-- The calls of `PodDefaulter`.
unfoldable pub injection_samples : Text → Bound → List Sample
injection_samples namespace b =
    map (λ name. counted credentials_injected (namespace ∷ name ∷ [])) b.bound

-- The call of the reconciler of claims.
unfoldable pub claim_samples : ModelClaim → ClaimRun.Outcome → List Sample
claim_samples m (ClaimRun.update st none) = []
claim_samples m (ClaimRun.update st (some n)) =
    gauged model_claim_allowed_models (m.namespace ∷ m.name ∷ []) n ∷ []

unfoldable pub artifact_samples : TokenPolicy → Option (GatewayType × ℕ) → List Sample
artifact_samples tp none = []
artifact_samples tp (some (type, n)) =
    gauged gateway_artifacts (tp.namespace ∷ gateway_text type ∷ []) n ∷ []

-- The calls of the reconciler of token policies.
unfoldable pub policy_samples : TokenPolicy → PolicyRun.PolicyOutcome → List Sample
policy_samples tp (PolicyRun.update st none artifacts) = artifact_samples tp artifacts
policy_samples tp (PolicyRun.update st (some n) artifacts) =
    gauged effective_models_gauge (tp.namespace ∷ tp.name ∷ []) n ∷ artifact_samples tp artifacts

unfoldable pub gauge_samples : ModelCredential → CredentialGauges → List Sample
gauge_samples mc g =
    record {
      collector = credential_capacity_tpm;
      values = mc.name ∷ [];
      change = set g.capacity_tpm;
    }
    ∷ record {
      collector = credential_allocated_tpm;
      values = mc.name ∷ [];
      change = set g.allocated_tpm;
    }
    ∷ record {
      collector = credential_oversubscribed;
      values = mc.name ∷ [];
      change = set g.oversubscribed;
    }
    ∷ gauged credential_synced_namespaces (mc.name ∷ []) g.synced_namespaces
    ∷ []

-- The calls of the reconciler of credentials.
unfoldable pub credential_samples : ModelCredential → CredentialRun.CredentialOutcome → List Sample
credential_samples mc (CredentialRun.update st seconds none) = []
credential_samples mc (CredentialRun.update st seconds (some g)) = gauge_samples mc g
