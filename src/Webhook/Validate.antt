-- ===== src/Webhook/Validate.antt =====
-- internal/webhook/v1alpha1/pod_webhook.go: `PodValidator`, which rejects pods.
pub mod Rejection
pub mod Reported
use token_control.Common.{
  Bool, true, false, not, ◌||◌, List, [], ◌∷◌, ◌++◌, Option, none, some, is_nil, if◌then◌else◌,
}
use token_control.Common.Result.{Result, ok, err}
use token_control.Text.{Text, codes, join}
use token_control.Api.{EnforcementMode}
use token_control.Api.Selector.{LabelSelectors}
use token_control.Policy.Effective.{Effective, ModelDecision, permit}
use token_control.Webhook.Cluster.{Client, Config, ReadError, exempt, resolve_effective}
use token_control.Webhook.Pod.{Pod, sa_of, namespace_from}
use token_control.Webhook.Declared.{DeclaredModel, declared_models}

-- What the webhook counts: internal/metrics.
pub data Metric : Type 0 where
  model_violation : Text → Text → Text → EnforcementMode → Metric
  admission_decision : Text → Text → EnforcementMode → Metric

-- The warnings, the reason of the Forbidden error or none, and the metrics that were counted.
pub record Response : Type 0 where
  pub warnings : List Text
  pub forbidden : Option Text
  pub metrics : List Metric

abbrev pub admitted : Response
admitted = record { warnings = []; forbidden = none; metrics = [] }

-- The lists that the loop over the declared models fills.
pub record Review : Type 0 where
  pub warnings : List Text
  pub violations : List Text
  pub metrics : List Metric

abbrev pub is_enforce : EnforcementMode → Bool
is_enforce EnforcementMode.enforce = true
is_enforce _ = false

abbrev pub is_disabled : EnforcementMode → Bool
is_disabled EnforcementMode.disabled = true
is_disabled _ = false

abbrev pub audit_warning : Text → Text
audit_warning reason = codes "token-control(audit): " ++ reason

-- One round of the loop, before the rounds of the later models.
unfoldable pub review_one : Text → Effective → DeclaredModel → Review → Review
review_one namespace eff dm later =
    let dec = permit eff dm.provider dm.model in
    if dec.allowed
    then later
    else if is_enforce eff.enforcement
    then record {
      warnings = later.warnings;
      violations = dec.reason ∷ later.violations;
      metrics = model_violation namespace dm.provider dm.model eff.enforcement ∷ later.metrics;
    }
    else record {
      warnings = audit_warning dec.reason ∷ later.warnings;
      violations = later.violations;
      metrics = model_violation namespace dm.provider dm.model eff.enforcement ∷ later.metrics;
    }

unfoldable pub review : Text → Effective → List DeclaredModel → Review
review namespace eff [] = record { warnings = []; violations = []; metrics = [] }
review namespace eff (dm ∷ dms) = review_one namespace eff dm (review namespace eff dms)

unfoldable pub respond : Text → EnforcementMode → Review → Response
respond namespace mode r =
    if not (is_nil r.violations)
    then record {
      warnings = r.warnings;
      forbidden = some (codes "token-control: " ++ join (codes "; ") r.violations);
      metrics = r.metrics ++ (admission_decision (codes "deny") namespace mode ∷ []);
    }
    else record {
      warnings = r.warnings;
      forbidden = none;
      metrics = r.metrics ++ (admission_decision (codes "allow") namespace mode ∷ []);
    }

-- From `resolveEffective` on.
unfoldable pub judge : Text → List DeclaredModel → Result ReadError Effective → Response
judge namespace declared (err e) = admitted
judge namespace declared (ok eff) =
    if not eff.governed || is_disabled eff.enforcement
    then admitted
    else respond namespace eff.enforcement (review namespace eff declared)

abbrev pub if_declared : List DeclaredModel → Response → Response
if_declared [] r = admitted
if_declared (d ∷ ds) r = r

-- The request has a namespace of its own or none.
unfoldable pub validate : LabelSelectors → Client → Config → Option Text → Pod → Response
validate K c config request pod =
    let namespace = namespace_from request pod.namespace in
    if exempt config namespace then admitted else elim (declared_models K c namespace pod) [
      | err e ↦ admitted
      | ok declared ↦
          if_declared declared
            (judge namespace declared (resolve_effective K c namespace pod.labels (sa_of pod)))
    ]
