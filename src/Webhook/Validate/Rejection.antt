-- ===== src/Webhook/Validate/Rejection.antt =====
-- When `PodValidator` rejects a pod.
use token_control.Common.{
  ◌≡◌, ◌↔◌, inl, inr, refl, true, false, List, [], ◌∷◌, Option, Some, is_nil, arith, Bool-cases,
}
use token_control.Common.Result.{Result, ok, err, Result-cases}
use token_control.Text.{Text}
use token_control.Api.{EnforcementMode}
use token_control.Api.Selector.{LabelSelectors}
use token_control.Policy.Apply.{is_set}
use token_control.Policy.Effective.{Effective, permit}
use token_control.Webhook.Cluster.{Client, Config, ReadError, exempt, resolve_effective}
use token_control.Webhook.Pod.{Pod, sa_of, namespace_from}
use token_control.Webhook.Declared.{DeclaredModel, declared_models}
use token_control.Webhook.Validate.{
  Response, Review, review, review_one, respond, judge, if_declared, validate,
}

abbrev pub IsForbidden : Response → Type 0
IsForbidden r = is_set r.forbidden ≡ true

-- The effective policy refuses a declared model.
abbrev pub Refuses : Effective → DeclaredModel → Type 0
Refuses e d = (permit e d.provider d.model).allowed ≡ false

respond-IsForbidden :
    (namespace : Text) (mode : EnforcementMode) (r : Review)
    → IsForbidden (respond namespace mode r) ↔ (is_nil r.violations ≡ false)
unfolding respond
respond-IsForbidden namespace mode r = ground arith

review-violations :
    (namespace : Text) (e : Effective) (ds : List DeclaredModel)
    → (is_nil (review namespace e ds).violations ≡ false)
      ↔ ((e.enforcement ≡ EnforcementMode.enforce) × Some (Refuses e) ds)
unfolding review review_one
review-violations namespace e [] = ground arith
review-violations namespace e (d ∷ ds) = ground (arith, review-violations namespace e ds)

judge-IsForbidden :
    (namespace : Text) (ds : List DeclaredModel) (r : Result ReadError Effective)
    → IsForbidden (judge namespace ds r) ↔ (
        (e : Effective) × (r ≡ ok e)
        × (e.governed ≡ true)
        × (e.enforcement ≡ EnforcementMode.enforce)
        × Some (Refuses e) ds)
unfolding judge
judge-IsForbidden namespace ds (err x) =
    (λ h. absurd (ground arith), λ h. absurd (ground (arith, h.1)))
judge-IsForbidden namespace ds (ok e) = (
  λ h.
      let violated =
        (respond-IsForbidden namespace e.enforcement (review namespace e ds)).0 (ground arith) in
      let both = (review-violations namespace e ds).0 violated in
      (e, refl, ground arith, both.0, both.1),
  λ (f, same, g, m, s).
      let k : e ≡ f = ground arith in
      let both = (review-violations namespace f ds).1 (m, s) in
      let answer = (respond-IsForbidden namespace f.enforcement (review namespace f ds)).1 both in
      rw k (ground arith),
)

if_declared-IsForbidden :
    (namespace : Text) (ds : List DeclaredModel) (r : Result ReadError Effective)
    → IsForbidden (if_declared ds (judge namespace ds r)) ↔ IsForbidden (judge namespace ds r)
if_declared-IsForbidden namespace [] r = (
  λ h. absurd (ground arith),
  λ h. let (e, _, _, _, s) = (judge-IsForbidden namespace [] r).0 h in absurd s,
)
if_declared-IsForbidden namespace (d ∷ ds) r = (λ h. h, λ h. h)

-- A pod is rejected exactly when its namespace is not exempt, its declared models and the effective
-- policy of its workload can be read, the workload is governed in mode Enforce, and the effective
-- policy does not permit some declared model.
pub validate-IsForbidden :
    (K : LabelSelectors) (c : Client) (config : Config) (request : Option Text) (pod : Pod)
    → IsForbidden (validate K c config request pod) ↔ (
        let namespace = namespace_from request pod.namespace in
        (exempt config namespace ≡ false)
        × (ds : List DeclaredModel) × (declared_models K c namespace pod ≡ ok ds)
        × (e : Effective) × (resolve_effective K c namespace pod.labels (sa_of pod) ≡ ok e)
        × (e.governed ≡ true)
        × (e.enforcement ≡ EnforcementMode.enforce)
        × Some (Refuses e) ds)
unfolding validate
validate-IsForbidden K c config request pod =
    elim (Bool-cases (exempt config (namespace_from request pod.namespace))) [
      | inl e ↦ (λ h. absurd (ground arith), λ h. absurd (ground arith))
      | inr e ↦
          elim (Result-cases (declared_models K c (namespace_from request pod.namespace) pod)) [
            | inr (x, f) ↦ (λ h. absurd (ground arith), λ h. absurd (ground (arith, h.2)))
            | inl (ds, f) ↦
                let namespace = namespace_from request pod.namespace in
                let r = resolve_effective K c namespace pod.labels (sa_of pod) in
                let declares = if_declared-IsForbidden namespace ds r in
                let judges = judge-IsForbidden namespace ds r in
                (
                  λ h.
                      let (x, hx, g, m, s) = judges.0 (declares.0 (rw (e, f) at h)) in
                      (e, ds, f, x, hx, g, m, s),
                  λ (_, ds', f', x, hx, g, m, s).
                      let k : ds ≡ ds' = ground arith in
                      rw (e, f) (declares.1 (judges.1 (x, hx, g, m, rw k s))),
                )
          ]
    ]
