-- ===== src/Webhook/Inject/Authorized.antt =====
-- Which credentials `PodDefaulter` binds, and what it keeps of the pod.
use token_control.Common.{
  ◌≡◌, ◌⊎◌, inl, inr, refl, Bool, true, false, not, List, [], ◌∷◌, Option, Some, All, is_nil, arith,
  if◌then◌else◌, Bool-cases,
}
use token_control.Common.Result.{Result, ok, err, >>=-returns, Result-cases}
use token_control.Text.{Text, ◌==◌, codes}
use token_control.Api.Selector.{LabelSelectors}
use token_control.Policy.Effective.{Effective}
use token_control.Webhook.Cluster.{Client, Config, ReadError, exempt, resolve_effective}
use token_control.Webhook.Pod.{Pod, sa_of, namespace_from, annotation, set_annotation}
use token_control.Webhook.Declared.{DeclaredModel, declared_models}
use token_control.Webhook.Deliver.Kept.{PodKeeps, PodKeeps-refl}
use token_control.Webhook.Inject.{
  cred_order, Bound, bind_all, annotation_disabled, record_decision, untouched, bind_declared,
  default_pod,
}
use token_control.Webhook.Inject.Loop.{Asks, cred_order-All, IsAuthorized, bind_all-Grows}

if-not : {A : Type 0} (g : Bool) (x y z : A) → (if not g then x else y) ≡ z → (x ≡ z) ⊎ (y ≡ z)
if-not true x y z h = inr h
if-not false x y z h = inl h

record_decision-PodKeeps :
    (p : Pod) (sources : List Text) (b : Bound)
    → PodKeeps p b.pod
    → PodKeeps p (record_decision sources b).pod
unfolding record_decision set_annotation
record_decision-PodKeeps p sources b h = elim (Bool-cases (is_nil b.bound)) [
  | inl e ↦ elim (Bool-cases (is_nil sources)) [ inl f ↦ rw (e, f) h | inr f ↦ rw (e, f) h ]
  | inr e ↦ elim (Bool-cases (is_nil sources)) [ inl f ↦ rw (e, f) h | inr f ↦ rw (e, f) h ]
]

module _ (K : LabelSelectors) (c : Client) (config : Config) (request : Option Text)
    (pod : Pod) where
  -- The declared models and the decision with which the loop over the credentials ran.
  abbrev Ran : Bound → Type 0
  Ran out =
      let namespace = namespace_from request pod.namespace in
      (ds : List DeclaredModel) × (declared_models K c namespace pod ≡ ok ds)
      × (e : Effective) × (resolve_effective K c namespace pod.labels (sa_of pod) ≡ ok e)
      × (b : Bound) × (bind_all K c namespace (cred_order e [] ds) (untouched pod) ≡ ok b)
      × (out ≡ record_decision e.sources b)

  bind_declared-Ran :
      (ds : List DeclaredModel) (r : Result ReadError Effective) (out : Bound)
      → bind_declared K c (namespace_from request pod.namespace) pod ds r ≡ ok out
      → (out ≡ untouched pod)
        ⊎ ((e : Effective) × (r ≡ ok e)
            × (b : Bound) × (bind_all K c
                  (namespace_from request pod.namespace)
                  (cred_order e [] ds)
                  (untouched pod)
                ≡ ok b)
            × (out ≡ record_decision e.sources b))
  unfolding bind_declared
  bind_declared-Ran ds (err x) out h = inl (ground arith)
  bind_declared-Ran ds (ok e) out h = elim (if-not e.governed (ok (untouched pod)) _ (ok out) h) [
    | inl same ↦ inl (ground arith)
    | inr ran ↦
        let (b, hb, k) =
          >>=-returns
            (bind_all K c (namespace_from request pod.namespace) (cred_order e [] ds)
              (untouched pod))
            _ ran in
        inr (e, refl, b, hb, ground arith)
  ]

  default_pod-Ran :
      (out : Bound) → default_pod K c config request pod ≡ ok out → (out ≡ untouched pod) ⊎ Ran out
  unfolding default_pod
  default_pod-Ran out h = elim (Bool-cases (exempt config (namespace_from request pod.namespace))) [
    | inl e ↦ inl (ground arith)
    | inr e ↦ elim (Bool-cases (annotation pod.annotations annotation_disabled == codes "true")) [
      | inl off ↦ inl (ground arith)
      | inr on ↦
          elim (Result-cases (declared_models K c (namespace_from request pod.namespace) pod)) [
            | inr (x, f) ↦ inl (ground arith)
            | inl ([], f) ↦ inl (ground arith)
            | inl (d ∷ ds, f) ↦
                let r =
                  resolve_effective K c (namespace_from request pod.namespace) pod.labels
                    (sa_of pod) in
                elim (bind_declared-Ran (d ∷ ds) r out (rw (e, on, f) at h)) [
                  | inl same ↦ inl same
                  | inr (x, hx, b, hb, same) ↦ inr (d ∷ ds, f, x, hx, b, hb, same)
                ]
          ]
    ]
  ]

  -- Every credential that is bound to a pod exists, may be bound in the namespace, and is the one of
  -- a declared model that the effective policy of the workload permits: the credential that the
  -- policies name for the model or, where they name none, the one that the declaration asks for.
  pub default_pod-IsAuthorized :
      (out : Bound)
      → default_pod K c config request pod ≡ ok out
      → let namespace = namespace_from request pod.namespace in
        All
          (λ name.
            IsAuthorized K c namespace name
            × (ds : List DeclaredModel) × (declared_models K c namespace pod ≡ ok ds)
            × (e : Effective) × (resolve_effective K c namespace pod.labels (sa_of pod) ≡ ok e)
            × Some (Asks e name) ds)
          out.bound
  unfolding record_decision
  default_pod-IsAuthorized out h = elim (default_pod-Ran out h) [
    | inl same ↦ rw same tt
    | inr (ds, hd, e, he, b, hb, same) ↦
        let namespace = namespace_from request pod.namespace in
        let P : Text → Type 0 = λ name.
          IsAuthorized K c namespace name
          × (ds : List DeclaredModel) × (declared_models K c namespace pod ≡ ok ds)
          × (e : Effective) × (resolve_effective K c namespace pod.labels (sa_of pod) ≡ ok e)
          × Some (Asks e name) ds in
        let asked =
          cred_order-All (λ name. IsAuthorized K c namespace name → P name) e ds [] tt
            (λ name s a. (a, ds, hd, e, he, s)) in
        rw same
          ((bind_all-Grows K c namespace P (cred_order e [] ds) (untouched pod) b hb asked).1 tt)
  ]

  -- Whatever is bound: under each name that a variable or a mount of a container has, the container
  -- has exactly the variables or the mounts that it had, in order, and likewise the pod its
  -- volumes. So no value is changed, and none is overridden by a later entry of its name.
  pub default_pod-PodKeeps :
      (out : Bound) → default_pod K c config request pod ≡ ok out → PodKeeps pod out.pod
  default_pod-PodKeeps out h = elim (default_pod-Ran out h) [
    | inl same ↦ rw same (PodKeeps-refl pod)
    | inr (ds, hd, e, he, b, hb, same) ↦
        let namespace = namespace_from request pod.namespace in
        let grown =
          bind_all-Grows K c namespace (λ name. IsAuthorized K c namespace name)
            (cred_order e [] ds) (untouched pod) b hb
            (cred_order-All
              (λ name. IsAuthorized K c namespace name → IsAuthorized K c namespace name) e ds [] tt
              (λ name s a. a)) in
        rw same (record_decision-PodKeeps pod e.sources b grown.0)
  ]
