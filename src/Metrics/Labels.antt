-- ===== src/Metrics/Labels.antt =====
-- That every call on a collector is one that its declaration allows.
use token_control.Common.{
  ◌≡◌, inl, inr, refl, false, List, [], ◌∷◌, map, Option, none, some, ℕ, All, Some, length, arith,
}
use token_control.Common.Sort.{Distinct}
use token_control.Text.{Text, ◌==◌}
use token_control.Api.{GatewayType}
use token_control.Api.Policies.{TokenPolicy}
use token_control.Api.Claim.{ModelClaim}
use token_control.Api.Credential.{ModelCredential}
use token_control.Webhook.Validate.{Metric, model_violation, admission_decision, Response}
use token_control.Webhook.Inject.{Bound}
use token_control.Controller.Claim as ClaimRun
use token_control.Controller.PolicyStatus as PolicyRun
use token_control.Controller.Credential as CredentialRun
use token_control.Metrics.{CollectorType, counter, gauge, Change, inc, set, Sample, registered}
use token_control.Metrics.Emitted.{
  metric_sample, violation_sample, decision_sample, response_samples, injection_samples,
  claim_samples, artifact_samples, policy_samples, gauge_samples, credential_samples,
}

-- A counter is incremented and a gauge is set.
abbrev pub Suits : CollectorType → Change → Type 0
Suits counter inc = Unit
Suits counter (set n) = ⊥
Suits gauge inc = ⊥
Suits gauge (set n) = Unit

-- The collector is registered, and the series has one value for each label.
abbrev pub Fits : Sample → Type 0
Fits s =
    Some (λ c. c ≡ s.collector) registered
    × (length s.values ≡ length s.collector.labels)
    × Suits s.collector.type s.change

All-map :
    {A B : Type 0} (P : B → Type 0) (f : A → B) (xs : List A)
    → ((x : A) → P (f x))
    → All P (map f xs)
All-map P f [] h = tt
All-map P f (x ∷ xs) h = (h x, All-map P f xs h)

metric_sample-Fits : (m : Metric) → Fits (metric_sample m)
unfolding metric_sample violation_sample decision_sample
metric_sample-Fits (model_violation n p m e) = (inr (inl refl), refl, tt)
metric_sample-Fits (admission_decision d n e) = (inl refl, refl, tt)

artifact_samples-Fits :
    (tp : TokenPolicy) (g : Option (GatewayType × ℕ)) → All Fits (artifact_samples tp g)
unfolding artifact_samples
artifact_samples-Fits tp none = tt
artifact_samples-Fits tp (some (type, n)) =
    ((inr (inr (inr (inr (inr (inr (inr (inr (inl refl)))))))), refl, tt), tt)

claim_samples-Fits : (m : ModelClaim) (o : ClaimRun.Outcome) → All Fits (claim_samples m o)
unfolding claim_samples
claim_samples-Fits m (ClaimRun.update st none) = tt
claim_samples-Fits m (ClaimRun.update st (some n)) =
    ((inr (inr (inr (inr (inr (inr (inr (inr (inr (inr (inl refl)))))))))), refl, tt), tt)

policy_samples-Fits :
    (tp : TokenPolicy) (o : PolicyRun.PolicyOutcome) → All Fits (policy_samples tp o)
unfolding policy_samples
policy_samples-Fits tp (PolicyRun.update st none g) = artifact_samples-Fits tp g
policy_samples-Fits tp (PolicyRun.update st (some n) g) =
    ((inr (inr (inr (inr (inr (inr (inr (inl refl))))))), refl, tt), artifact_samples-Fits tp g)

credential_samples-Fits :
    (mc : ModelCredential) (o : CredentialRun.CredentialOutcome)
    → All Fits (credential_samples mc o)
unfolding credential_samples gauge_samples
credential_samples-Fits mc (CredentialRun.update st seconds none) = tt
credential_samples-Fits mc (CredentialRun.update st seconds (some g)) = (
  (inr (inr (inr (inr (inl refl)))), refl, tt),
  (
    (inr (inr (inr (inr (inr (inl refl))))), refl, tt),
    (
      (inr (inr (inr (inr (inr (inr (inl refl)))))), refl, tt),
      ((inr (inr (inr (inl refl))), refl, tt), tt),
    ),
  ),
)

registered-Distinct : Distinct (λ c d. (c.name == d.name) ≡ false) registered
unfolding ◌==◌
registered-Distinct = ground arith

-- No two registered collectors share a name; and every call of the webhooks and of the reconcilers is
-- on a registered collector, gives one value for each of its labels, and increments it where it is a
-- counter or sets it where it is a gauge.
pub registered-Fits :
    (r : Response) (namespace : Text) (b : Bound) (m : ModelClaim) (claimed : ClaimRun.Outcome)
    (tp : TokenPolicy) (governed : PolicyRun.PolicyOutcome) (mc : ModelCredential)
    (synced : CredentialRun.CredentialOutcome)
    → Distinct (λ c d. (c.name == d.name) ≡ false) registered
      × All Fits (response_samples r)
      × All Fits (injection_samples namespace b)
      × All Fits (claim_samples m claimed)
      × All Fits (policy_samples tp governed)
      × All Fits (credential_samples mc synced)
unfolding response_samples injection_samples
registered-Fits r namespace b m claimed tp governed mc synced = (
  registered-Distinct,
  All-map Fits metric_sample r.metrics metric_sample-Fits,
  All-map Fits _ b.bound (λ name. (inr (inr (inl refl)), refl, tt)),
  claim_samples-Fits m claimed,
  policy_samples-Fits tp governed,
  credential_samples-Fits mc synced,
)
