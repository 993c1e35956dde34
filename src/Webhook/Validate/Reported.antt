-- ===== src/Webhook/Validate/Reported.antt =====
-- What `PodValidator` answers and counts for a pod that it reviews.
use token_control.Common.{
  ◌≡◌, ◌⊎◌, ◌∙◌, refl, ap, Bool, true, false, not, ◌&&◌, ◌||◌, List, [], ◌∷◌, ◌++◌, map, Option,
  none, some, is_nil, filterb, if◌then◌else◌, Bool-cases, inl, inr, arith,
}
use token_control.Common.Result.{ok, Result-cases}
use token_control.Text.{Text, codes, join}
use token_control.Api.Selector.{LabelSelectors}
use token_control.Policy.Effective.{Effective, permit}
use token_control.Webhook.Cluster.{Client, Config, exempt, resolve_effective}
use token_control.Webhook.Pod.{Pod, sa_of, namespace_from}
use token_control.Webhook.Declared.{DeclaredModel, declared_models}
use token_control.Webhook.Validate.{
  Metric, model_violation, admission_decision, Response, Review, review, review_one, respond, judge,
  validate, is_enforce, is_disabled, admitted, if_declared, audit_warning,
}

module _ (namespace : Text) (e : Effective) where
  -- The declared models that the effective policy refuses.
  abbrev pub refused_models : List DeclaredModel → List DeclaredModel
  refused_models ds = filterb (λ d. not (permit e d.provider d.model).allowed) ds

  abbrev reasons : List DeclaredModel → List Text
  reasons ds = map (λ d. (permit e d.provider d.model).reason) ds

  abbrev violations : List DeclaredModel → List Metric
  violations ds = map (λ d. model_violation namespace d.provider d.model e.enforcement) ds

  -- The answer by the refused models: in mode Enforce the reasons are the error, otherwise they are
  -- warnings; each refused model is counted, and then the decision.
  abbrev pub answer : List DeclaredModel → Response
  answer refused =
      let denied = is_enforce e.enforcement && not (is_nil refused) in
      record {
        warnings = if is_enforce e.enforcement then [] else map audit_warning (reasons refused);
        forbidden =
            if denied
            then some (codes "token-control: " ++ join (codes "; ") (reasons refused))
            else none;
        metrics =
            violations refused
            ++ (admission_decision (if denied then codes "deny" else codes "allow") namespace
                  e.enforcement
                ∷ []);
      }

  abbrev reviewed : List DeclaredModel → Review
  reviewed refused = record {
    warnings = if is_enforce e.enforcement then [] else map audit_warning (reasons refused);
    violations = if is_enforce e.enforcement then reasons refused else [];
    metrics = violations refused;
  }

  review-refused : (ds : List DeclaredModel) → review namespace e ds ≡ reviewed (refused_models ds)
  unfolding review review_one
  review-refused [] = ground arith
  review-refused (d ∷ ds) = ground (arith, review-refused ds)

  respond-answer :
      (refused : List DeclaredModel)
      → respond namespace e.enforcement (reviewed refused) ≡ answer refused
  unfolding respond
  respond-answer [] = ground arith
  respond-answer (d ∷ ds) = ground arith

-- The pod is reviewed: its namespace is not exempt, it declares the models, and the effective policy of
-- its workload governs it in a mode other than Disabled.
abbrev pub Reviews :
    LabelSelectors → Client → Config → Option Text → Pod → List DeclaredModel → Effective → Type 0
Reviews K c config request pod ds e =
    let namespace = namespace_from request pod.namespace in
    (exempt config namespace ≡ false)
    × (declared_models K c namespace pod ≡ ok ds)
    × (is_nil ds ≡ false)
    × (resolve_effective K c namespace pod.labels (sa_of pod) ≡ ok e)
    × (e.governed ≡ true)
    × (is_disabled e.enforcement ≡ false)

if-false : (b : Bool) (x y : Response) → b ≡ false → (if b then x else y) ≡ y
if-false b x y h = ground arith

if_declared-some :
    (ds : List DeclaredModel) (r : Response) → is_nil ds ≡ false → if_declared ds r ≡ r
if_declared-some [] r h = absurd (ground arith)
if_declared-some (d ∷ ds) r h = refl

if_declared-admitted :
    (ds : List DeclaredModel) (r : Response)
    → (is_nil ds ≡ false → r ≡ admitted)
    → if_declared ds r ≡ admitted
if_declared-admitted [] r h = refl
if_declared-admitted (d ∷ ds) r h = h refl

judge-answer :
    (namespace : Text) (e : Effective) (ds : List DeclaredModel)
    → e.governed ≡ true
    → is_disabled e.enforcement ≡ false
    → judge namespace ds (ok e) ≡ answer namespace e (refused_models namespace e ds)
unfolding judge
judge-answer namespace e ds g m =
    if-false (not e.governed || is_disabled e.enforcement) admitted
      (respond namespace e.enforcement (review namespace e ds)) (ground arith)
    ∙ (ap (respond namespace e.enforcement) (review-refused namespace e ds)
        ∙ respond-answer namespace e (refused_models namespace e ds))

judge-admitted :
    (namespace : Text) (e : Effective) (ds : List DeclaredModel)
    → ¬ ((e.governed ≡ true) × (is_disabled e.enforcement ≡ false))
    → judge namespace ds (ok e) ≡ admitted
unfolding judge
judge-admitted namespace e ds n = ground arith

abbrev reviewable : List DeclaredModel → Effective → Bool
reviewable ds e = not (is_nil ds) && e.governed && not (is_disabled e.enforcement)

declared-answer :
    (namespace : Text) (e : Effective) (ds : List DeclaredModel)
    → reviewable ds e ≡ true
    → if_declared ds (judge namespace ds (ok e))
      ≡ answer namespace e (refused_models namespace e ds)
declared-answer namespace e ds h =
    if_declared-some ds (judge namespace ds (ok e)) (ground arith)
    ∙ judge-answer namespace e ds (ground arith) (ground arith)

declared-admitted :
    (namespace : Text) (e : Effective) (ds : List DeclaredModel)
    → reviewable ds e ≡ false
    → if_declared ds (judge namespace ds (ok e)) ≡ admitted
declared-admitted namespace e ds h =
    if_declared-admitted ds (judge namespace ds (ok e))
      (λ n. judge-admitted namespace e ds (λ (g, m). absurd (ground arith)))

-- A pod that is reviewed is answered by the declared models that its effective policy refuses: in mode
-- Enforce their reasons, joined, are the error, where there are any, and otherwise each reason is a
-- warning; the metrics count each refused model once, in order, and then one decision, which is a
-- denial exactly where there is an error. A pod that is not reviewed is admitted without a warning
-- and without a metric.
pub validate-answer :
    (K : LabelSelectors) (c : Client) (config : Config) (request : Option Text) (pod : Pod)
    → ((ds : List DeclaredModel) × (e : Effective) × Reviews K c config request pod ds e
        × (validate K c config request pod
            ≡ let namespace = namespace_from request pod.namespace in
              answer namespace e (refused_models namespace e ds)))
      ⊎ (((ds : List DeclaredModel) (e : Effective) → ¬ Reviews K c config request pod ds e)
          × (validate K c config request pod ≡ admitted))
unfolding validate judge
validate-answer K c config request pod =
    let namespace = namespace_from request pod.namespace in
    elim (Bool-cases (exempt config namespace)) [
      | inl x ↦ inr (λ ds e r. absurd (ground arith), rw x refl)
      | inr x ↦ elim (Result-cases (declared_models K c namespace pod)) [
        | inr (y, f) ↦ inr (λ ds e r. absurd (ground arith), rw (x, f) refl)
        | inl (ds, f) ↦
            elim (Result-cases (resolve_effective K c namespace pod.labels (sa_of pod))) [
              | inr (z, g) ↦ inr (
                λ ds e r. absurd (ground arith),
                rw (x, f, g) (if_declared-admitted ds _ (λ _. refl)),
              )
              | inl (e, g) ↦ elim (Bool-cases (reviewable ds e)) [
                | inl b ↦ inl (
                  ds,
                  e,
                  (x, f, ground arith, g, ground arith, ground arith),
                  rw (x, f, g) (declared-answer namespace e ds b),
                )
                | inr b ↦ inr (
                  λ ds' e' r.
                      let same : ds ≡ ds' = ground arith in
                      let decision : e ≡ e' = ground arith in
                      absurd (ground (arith, r.2, r.4, r.5)),
                  rw (x, f, g) (declared-admitted namespace e ds b),
                )
              ]
            ]
      ]
    ]
