-- ===== src/Metrics/Decisions.antt =====
-- What the counters of `PodValidator` show after a sequence of reviews.
use token_control.Common.{
  ℕ, ◌+◌, ◌≤◌, ◌≡◌, refl, ◌∙◌, Bool, true, false, ◌&&◌, not, List, [], ◌∷◌, ◌++◌, map, Option, none,
  some, is_nil, length, if◌then◌else◌, inl, inr, arith,
}
use token_control.Text.{Text, ◌==◌, codes}
use token_control.Api.{EnforcementMode}
use token_control.Api.Selector.{LabelSelectors}
use token_control.Policy.Apply.{is_set}
use token_control.Policy.Effective.{Effective, permit}
use token_control.Webhook.Cluster.{Client, Config}
use token_control.Webhook.Pod.{Pod, namespace_from}
use token_control.Webhook.Declared.{DeclaredModel}
use token_control.Webhook.Validate.{
  model_violation, admission_decision, Response, validate, is_enforce, admitted, audit_warning,
}
use token_control.Webhook.Validate.Reported.{refused_models, answer, validate-answer}
use token_control.Metrics.{Collector, Sample, admission_decisions, model_violations}
use token_control.Metrics.Emitted.{
  metric_sample, violation_sample, decision_sample, response_samples,
}

abbrev pub sum_over : {A : Type 0} → (A → ℕ) → List A → ℕ
sum_over f [] = 0
sum_over f (x ∷ xs) = f x + sum_over f xs

sum_over-append :
    {A : Type 0} (f : A → ℕ) (xs ys : List A)
    → sum_over f (xs ++ ys) ≡ sum_over f xs + sum_over f ys
sum_over-append f [] ys = omega arith
sum_over-append f (x ∷ xs) ys = omega (arith, sum_over-append f xs ys)

-- The values begin with the given ones.
abbrev pub leads : List Text → List Text → Bool
leads [] values = true
leads (x ∷ xs) [] = false
leads (x ∷ xs) (v ∷ values) = x == v && leads xs values

abbrev pub one_if : Bool → ℕ
one_if b = if b then 1 else 0

abbrev pub is_of : Collector → List Text → Sample → Bool
is_of c leading s = s.collector.name == c.name && leads leading s.values

-- What the series of a counter add up to whose first labels have the given values.
abbrev pub total : Collector → List Text → List Sample → ℕ
total c leading = sum_over (λ s. one_if (is_of c leading s))

-- A request for a review, with the state of the cluster that it meets.
pub record PodReview : Type 0 where
  pub client : Client
  pub request : Option Text
  pub pod : Pod

abbrev pub review_namespace : PodReview → Text
review_namespace r = namespace_from r.request r.pod.namespace

module _ (namespace ns : Text) where
  decision-total :
      (decision leading : Text) (mode : EnforcementMode)
      → is_of admission_decisions (leading ∷ ns ∷ []) (decision_sample decision namespace mode)
        ≡ (leading == decision && ns == namespace)
  unfolding decision_sample ◌==◌
  decision-total decision leading mode = ground arith

  violation-decision :
      (leading : Text) (d : DeclaredModel) (mode : EnforcementMode)
      → is_of admission_decisions
          (leading ∷ ns ∷ [])
          (violation_sample namespace d.provider d.model mode)
        ≡ false
  unfolding violation_sample ◌==◌
  violation-decision leading d mode = refl

  violation-total :
      (d : DeclaredModel) (mode : EnforcementMode)
      → is_of model_violations (ns ∷ []) (violation_sample namespace d.provider d.model mode)
        ≡ (ns == namespace)
  unfolding violation_sample ◌==◌
  violation-total d mode = ground arith

  decision-violation :
      (decision : Text) (mode : EnforcementMode)
      → is_of model_violations (ns ∷ []) (decision_sample decision namespace mode) ≡ false
  unfolding decision_sample ◌==◌
  decision-violation decision mode = refl

is_set-if : {A : Type 0} (b : Bool) (x : A) → is_set (if b then some x else none) ≡ b
is_set-if b x = ground arith

module _ (namespace ns : Text) (e : Effective) where
  abbrev denied : List DeclaredModel → Bool
  denied refused = is_enforce e.enforcement && not (is_nil refused)

  -- The violations of a list of models and a decision.
  abbrev calls : Text → List DeclaredModel → List Sample
  calls decision ds = map metric_sample (
      map (λ d. model_violation namespace d.provider d.model e.enforcement) ds
      ++ (admission_decision decision namespace e.enforcement ∷ []))

  calls-denials :
      (leading decision : Text) (ds : List DeclaredModel)
      → total admission_decisions (leading ∷ ns ∷ []) (calls decision ds)
        ≡ one_if (leading == decision && ns == namespace)
  unfolding metric_sample
  calls-denials leading decision [] =
      rw (decision-total namespace ns decision leading e.enforcement) (omega arith)
  calls-denials leading decision (d ∷ ds) =
      rw (violation-decision namespace ns leading d e.enforcement)
        (omega (arith, calls-denials leading decision ds))

  calls-violations :
      (decision : Text) (ds : List DeclaredModel)
      → total model_violations (ns ∷ []) (calls decision ds)
        ≡ (if ns == namespace then length ds else 0)
  unfolding metric_sample
  calls-violations decision [] =
      rw (decision-violation namespace ns decision e.enforcement) (ground arith)
  calls-violations decision (d ∷ ds) =
      rw (violation-total namespace ns d e.enforcement)
        (ground (arith, calls-violations decision ds))

length-map : {A B : Type 0} (f : A → B) (xs : List A) → length (map f xs) ≡ length xs
length-map f [] = refl
length-map f (x ∷ xs) = omega (arith, length-map f xs)

-- What a response adds to a namespace: a rejection, and its warnings.
abbrev rejects : Text → Text → Response → ℕ
rejects ns namespace r = one_if (is_set r.forbidden && ns == namespace)

abbrev warns : Text → Text → Response → ℕ
warns ns namespace r = if ns == namespace then length r.warnings else 0

-- The calls that follow a response account for it.
abbrev Accounts : Text → Text → Response → Type 0
Accounts ns namespace r =
    (total admission_decisions (codes "deny" ∷ ns ∷ []) (response_samples r)
      ≡ rejects ns namespace r)
    × (warns ns namespace r + rejects ns namespace r
        ≤ total model_violations (ns ∷ []) (response_samples r))

admitted-Accounts : (ns namespace : Text) → Accounts ns namespace admitted
unfolding response_samples
admitted-Accounts ns namespace = ground arith

deny-text : (b : Bool) → (codes "deny" == (if b then codes "deny" else codes "allow")) ≡ b
unfolding ◌==◌
deny-text true = refl
deny-text false = refl

warns-rejects :
    (ns namespace : Text) (e : Effective) (refused : List DeclaredModel)
    → warns ns namespace (answer namespace e refused)
        + rejects ns namespace (answer namespace e refused)
      ≤ (if ns == namespace then length refused else 0)
warns-rejects ns namespace e [] = ground arith
warns-rejects ns namespace e (d ∷ ds) =
    let reason : DeclaredModel → Text = λ x. (permit e x.provider x.model).reason in
    ground (arith, length-map audit_warning (map reason ds), length-map reason ds)

answer-Accounts :
    (ns namespace : Text) (e : Effective) (refused : List DeclaredModel)
    → Accounts ns namespace (answer namespace e refused)
unfolding response_samples
answer-Accounts ns namespace e refused =
    let b = denied namespace ns e refused in
    let decision : Text = if b then codes "deny" else codes "allow" in
    (
      calls-denials namespace ns e (codes "deny") decision refused ∙ ground (arith, deny-text b),
      rw (calls-violations namespace ns e decision refused) (warns-rejects ns namespace e refused),
    )

module _ (K : LabelSelectors) (config : Config) where
  abbrev pub response : PodReview → Response
  response r = validate K r.client config r.request r.pod

  response-Accounts : (ns : Text) (r : PodReview) → Accounts ns (review_namespace r) (response r)
  response-Accounts ns r = elim (validate-answer K r.client config r.request r.pod) [
    | inl (ds, e, h, same) ↦
        let namespace = review_namespace r in
        rw same (answer-Accounts ns namespace e (refused_models namespace e ds))
    | inr (n, same) ↦ rw same (admitted-Accounts ns (review_namespace r))
  ]

  -- The calls of a sequence of reviews.
  abbrev pub review_samples : List PodReview → List Sample
  review_samples [] = []
  review_samples (r ∷ rs) = response_samples (response r) ++ review_samples rs

  -- The pods of a namespace that were rejected, and the warnings that were given there.
  abbrev pub rejected : Text → List PodReview → ℕ
  rejected ns = sum_over (λ r. rejects ns (review_namespace r) (response r))

  abbrev pub warned : Text → List PodReview → ℕ
  warned ns = sum_over (λ r. warns ns (review_namespace r) (response r))

  -- After a sequence of reviews, each in a state of the cluster of its own: the denials that are
  -- counted for a namespace are as many as the pods that were rejected there, and the violations that
  -- are counted for it are at least as many as these and the warnings given there.
  pub review_samples-denials :
      (ns : Text) (rs : List PodReview)
      → (total admission_decisions (codes "deny" ∷ ns ∷ []) (review_samples rs) ≡ rejected ns rs)
        × (warned ns rs + rejected ns rs ≤ total model_violations (ns ∷ []) (review_samples rs))
  review_samples-denials ns [] = omega arith
  review_samples-denials ns (r ∷ rs) =
      let later = review_samples-denials ns rs in
      let now = response-Accounts ns r in
      omega (
        arith,
        sum_over-append (λ s. one_if (is_of admission_decisions (codes "deny" ∷ ns ∷ []) s))
            (response_samples (response r)) (review_samples rs),
        sum_over-append (λ s. one_if (is_of model_violations (ns ∷ []) s))
            (response_samples (response r)) (review_samples rs),
        later.0,
        later.1,
        now.0,
        now.1,
      )
