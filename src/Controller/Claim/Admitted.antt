-- ===== src/Controller/Claim/Admitted.antt =====
-- What the claim controller reports as bound, the pod webhook admits.
use token_control.Common.{
  ◌≡◌, ◌∙◌, inl, inr, refl, sym, true, false, List, [], ◌∷◌, Option, none, some, All, Some, is_nil,
  ℕ, arith,
}
use token_control.Common.Result.{Result, ok, err, >>=-returns, map_err}
use token_control.Text.{Text}
use token_control.Api.{EffectiveModel}
use token_control.Api.Selector.{Labels, LabelSelectors}
use token_control.Api.Policies.{ClusterTokenPolicy, TokenPolicy}
use token_control.Api.Claim.{ModelRequest, ModelClaim, ModelClaimStatus, bound}
use token_control.Policy.Effective.{Effective, permit}
use token_control.Policy.Resolve.{
  ResolveInput, ResolveError, labels_of, classify, select_namespace, resolve,
}
use token_control.Webhook.Cluster.{
  Client, Config, found, namespace_labels, resolve_effective, unresolved,
}
use token_control.Webhook.Pod.{Pod, sa_of, namespace_from}
use token_control.Webhook.Declared.{DeclaredModel, declared_models}
use token_control.Webhook.Validate.{validate}
use token_control.Webhook.Validate.Rejection.{IsForbidden, Refuses, validate-IsForbidden}
use token_control.Controller.Conditions.{Conditions}
use token_control.Controller.Claim.{
  ClaimIdentity, claim_identities, StoredClaim, update, resolve_claim, resolved_status, conclude,
  rebind, reconcile_claim,
}
use token_control.Controller.Claim.Verdict.{
  Permits, scope_of, IdentityPermits, resolved_status-bound,
}

module _ (K : LabelSelectors) where
  -- With a service account, a nil map of labels is an empty one.
  classify-labels :
      (a b : Option Labels) (sa : Text) (p : TokenPolicy)
      → is_nil sa ≡ false
      → labels_of a ≡ labels_of b
      → classify K a sa p ≡ classify K b sa p
  unfolding classify
  classify-labels none none sa p h e = refl
  classify-labels none (some l) sa p h e = rw (h, e) refl
  classify-labels (some l) none sa p h e = rw (h, e) refl
  classify-labels (some l) (some m) sa p h e = rw e refl

  select_namespace-labels :
      (a b : Option Labels) (sa : Text) (ps : List TokenPolicy)
      → is_nil sa ≡ false
      → labels_of a ≡ labels_of b
      → select_namespace K a sa ps ≡ select_namespace K b sa ps
  unfolding select_namespace
  select_namespace-labels a b sa [] h e = refl
  select_namespace-labels a b sa (p ∷ ps) h e =
      rw (classify-labels a b sa p h e, select_namespace-labels a b sa ps h e) refl

  resolve-labels :
      (i : ResolveInput) (a : Option Labels) (sa : Text)
      → is_nil sa ≡ false
      → labels_of a ≡ labels_of i.pod_labels
      → sa ≡ i.service_account
      → resolve K (record i { pod_labels = a; service_account = sa }) ≡ resolve K i
  unfolding resolve
  resolve-labels i a sa h e s =
      rw (select_namespace-labels a i.pod_labels sa i.namespace_policies h e, s) refl

sa_of-set : (pod : Pod) → is_nil (sa_of pod) ≡ false
unfolding sa_of
sa_of-set pod = ground arith

-- What a run on a claim has read and resolved, where it writes a status with the gauge.
module _ (K : LabelSelectors) (D : Conditions) (c : Client) (s : StoredClaim) where
  pub Ran : ModelClaimStatus → Type 0
  Ran st =
      (clusters : List ClusterTokenPolicy) × (policies : List TokenPolicy) × (labels : Labels)
      × (resolved : List EffectiveModel) × (c.list_cluster_policies ≡ ok clusters)
      × (c.list_policies s.claim.namespace ≡ ok policies)
      × (namespace_labels c s.claim.namespace ≡ ok labels)
      × (resolve_claim K s.claim clusters policies labels ≡ ok resolved)
      × (st ≡ resolved_status D s.generation resolved s.status)

  concluded :
      (r : Result ResolveError (List EffectiveModel)) (st : ModelClaimStatus) (n : ℕ)
      → conclude D s.generation s.status r ≡ update st (some n)
      → (resolved : List EffectiveModel) × (r ≡ ok resolved)
        × (st ≡ resolved_status D s.generation resolved s.status)
  unfolding conclude
  concluded (err e) st n h = absurd (ground arith)
  concluded (ok resolved) st n h = (resolved, refl, ground arith)

  reconcile_claim-Ran :
      (st : ModelClaimStatus) (n : ℕ)
      → reconcile_claim K D c (found s) ≡ ok (some (update st (some n)))
      → Ran st
  unfolding reconcile_claim rebind Ran
  reconcile_claim-Ran st n h =
      let (o, ho, last) = >>=-returns (rebind K D c s) _ h in
      let (clusters, hc, h1) = >>=-returns c.list_cluster_policies _ ho in
      let (policies, hp, h2) = >>=-returns (c.list_policies s.claim.namespace) _ h1 in
      let (labels, hl, h3) = >>=-returns (namespace_labels c s.claim.namespace) _ h2 in
      let answer = resolve_claim K s.claim clusters policies labels in
      let made : conclude D s.generation s.status answer ≡ update st (some n) = ground arith in
      let (resolved, hr, same) = concluded answer st n made in
      (clusters, policies, labels, resolved, hc, hp, hl, hr, same)

-- The claim requests the declared model.
abbrev pub Requested : ModelClaim → DeclaredModel → Type 0
Requested mcl d = Some (λ m. (d.provider ≡ m.provider) × (d.model ≡ m.model)) mcl.spec.models

All-at : {A : Type 0} (P : A → Type 0) (a : A) (l : List A) → All P l → Some (λ x. x ≡ a) l → P a
All-at P a [] h m = absurd m
All-at P a (x ∷ l) (h, hs) (inl e) = rw (← e) h
All-at P a (x ∷ l) (h, hs) (inr m) = All-at P a l hs m

Permits-Requested :
    (e : Effective) (d : DeclaredModel) (ms : List ModelRequest)
    → All (Permits e) ms
    → Some (λ m. (d.provider ≡ m.provider) × (d.model ≡ m.model)) ms
    → (permit e d.provider d.model).allowed ≡ true
Permits-Requested e d [] h m = absurd m
Permits-Requested e d (m ∷ ms) (h, hs) (inl (p, q)) = rw (p, q) h
Permits-Requested e d (m ∷ ms) (h, hs) (inr k) = Permits-Requested e d ms hs k

none-refused :
    (mcl : ModelClaim) (e : Effective) (ds : List DeclaredModel)
    → All (Permits e) mcl.spec.models
    → All (Requested mcl) ds
    → ¬ Some (Refuses e) ds
none-refused mcl e [] h r s = s
none-refused mcl e (d ∷ ds) h (r, rs) (inl refused) =
    let yes_allowed = Permits-Requested e d mcl.spec.models h r in cc
none-refused mcl e (d ∷ ds) h (r, rs) (inr s) = none-refused mcl e ds h rs s

module _ (K : LabelSelectors) (c : Client) (mcl : ModelClaim) (clusters : List ClusterTokenPolicy)
    (policies : List TokenPolicy) (labels : Labels) (pod : Pod) (id : ClaimIdentity) where
  -- The decision for the pod is that for the identity.
  same_scope :
      (ns : Text) (e : Effective)
      → c.list_cluster_policies ≡ ok clusters
      → c.list_policies mcl.namespace ≡ ok policies
      → namespace_labels c mcl.namespace ≡ ok labels
      → ns ≡ mcl.namespace
      → labels_of pod.labels ≡ labels_of id.pod_labels
      → sa_of pod ≡ id.sa
      → resolve_effective K c ns pod.labels (sa_of pod) ≡ ok e
      → resolve K (scope_of K mcl clusters policies labels id) ≡ ok e
  unfolding resolve_effective
  same_scope ns e hc hp hl hn el es h =
      let here = rw hn at h in
      let asked = record (scope_of K mcl clusters policies labels id) {
        pod_labels = pod.labels;
        service_account = sa_of pod;
      } in
      let read : map_err unresolved (resolve K asked) ≡ ok e = rw (hl, hp, hc) at here in
      let answer : resolve K asked ≡ ok e = ground arith in
      sym (
        resolve-labels K (scope_of K mcl clusters policies labels id) pod.labels (sa_of pod)
          (sa_of-set pod) el es)
      ∙ answer

  Permits-All :
      (e : Effective) (ms : List ModelRequest)
      → resolve K (scope_of K mcl clusters policies labels id) ≡ ok e
      → Some (λ x. x ≡ id) (claim_identities mcl.spec.selector)
      → All
          (λ m.
            All
              (IdentityPermits K mcl clusters policies labels m)
              (claim_identities mcl.spec.selector))
          ms
      → All (Permits e) ms
  Permits-All e [] h m a = tt
  Permits-All e (r ∷ ms) h m (p, a) =
      let (e', h', allowed) =
        All-at (IdentityPermits K mcl clusters policies labels r) id
          (claim_identities mcl.spec.selector) p m in
      let same : e ≡ e' = ground arith in (rw same allowed, Permits-All e ms h m a)

-- The run on a claim writes that it is bound, and a pod in its namespace has the service account and the
-- labels of an identity that the selector of the claim stands for. If each model that the pod declares
-- is requested by the claim, then the pod webhook, in the same state of the cluster, does not reject the
-- pod.
pub reconcile_claim-admits :
    (K : LabelSelectors) (D : Conditions) (c : Client) (s : StoredClaim) (st : ModelClaimStatus)
    (n : ℕ) (config : Config) (request : Option Text) (pod : Pod) (id : ClaimIdentity)
    (ds : List DeclaredModel)
    → reconcile_claim K D c (found s) ≡ ok (some (update st (some n)))
    → st.phase ≡ bound
    → namespace_from request pod.namespace ≡ s.claim.namespace
    → Some (λ x. x ≡ id) (claim_identities s.claim.spec.selector)
    → labels_of pod.labels ≡ labels_of id.pod_labels
    → sa_of pod ≡ id.sa
    → declared_models K c (namespace_from request pod.namespace) pod ≡ ok ds
    → All (Requested s.claim) ds
    → ¬ IsForbidden (validate K c config request pod)
unfolding Ran
reconcile_claim-admits K D c s st n config request pod id ds ran is_bound hn member el es hd
      requested forbidden =
    let (clusters, policies, labels, resolved, hc, hp, hl, hr, same) =
      reconcile_claim-Ran K D c s st n ran in
    let all =
      (resolved_status-bound K s.claim clusters policies labels D s.generation s.status resolved
          hr).0.0
        (rw same at is_bound) in
    let (_, ds', hd', e, he, _, _, refused) =
      (validate-IsForbidden K c config request pod).0 forbidden in
    let there =
      same_scope K c s.claim clusters policies labels pod id (namespace_from request pod.namespace)
        e hc hp hl hn el es he in
    let permits =
      Permits-All K c s.claim clusters policies labels pod id e s.claim.spec.models there member
        all in
    let one : ds ≡ ds' = ground arith in
    none-refused s.claim e ds permits requested (rw one refused)
