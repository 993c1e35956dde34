-- ===== src/Webhook/Admit/Dead.antt =====
-- What the warning that a rule has no effect promises.
mod Tests
use token_control.Common.{
  ◌≡◌, ◌≢◌, ◌⊎◌, ◌∙◌, inl, inr, refl, sym, Bool, true, false, not, List, [], ◌∷◌, ◌++◌, Option,
  none, some, Some, All, filterb, filterb-kept, filterb-left, is_nil, arith, Bool-cases,
  Option-cases,
}
use token_control.Common.Result.{Result, ok, err, ◌>>=◌, map_err, >>=-returns, Result-cases}
use token_control.Text.{Text, ◌==◌}
use token_control.Api.{ModelPermission, CredentialReference}
use token_control.Api.Selector.{Labels, LabelSelectors, is_empty}
use token_control.Api.Policies.{ClusterTokenPolicy, TokenPolicy}
use token_control.Policy.Effective.{Effective, permit}
use token_control.Policy.Resolve.{
  ResolveInput, ResolveError, Selected, add_selected, classify, select_namespace, resolve,
}
use token_control.Policy.Resolve.Selection.{resolve-ok, resolve-of_selected}
use token_control.Policy.Resolve.Narrowing.{namespace_scope, permit-workload_narrows}
use token_control.Webhook.Cluster.{
  resolve_effective-ok, Client, ReadError, unavailable, unresolved, Fetch-cases, namespace_labels,
  resolve_effective,
}
use token_control.Webhook.Admit.{
  Problem, Warning, no_effect, credential_warning, credential_warnings, provider_warning,
  dead_rules, broader, namespace_input, labels_or_none, hierarchy_warnings, unless_problems,
  token_policy_problems, validate_token_policy,
}

-- `p.Name != tp.Name`
abbrev pub other_than : TokenPolicy → TokenPolicy → Bool
other_than tp p = not (p.name == tp.name)

-- The lists of the second client are those of the first once the policy is written: the other
-- policies of its namespace are as they were, and the one of its name is the policy itself.
abbrev pub Written : TokenPolicy → Client → Client → Type 0
Written tp before after =
    (after.list_cluster_policies ≡ before.list_cluster_policies)
    × (namespace_labels after tp.namespace ≡ namespace_labels before tp.namespace)
    × (old : List TokenPolicy) × (new : List TokenPolicy) × (before.list_policies tp.namespace
        ≡ ok old)
    × (after.list_policies tp.namespace ≡ ok new)
    × (filterb (other_than tp) new ≡ filterb (other_than tp) old)
    × All (λ p. (other_than tp p ≡ true) ⊎ (p ≡ tp)) new

abbrev Warns : Text → Text → Text → List Warning → Type 0
Warns provider model reason = Some (λ w. w ≡ no_effect provider model reason)

Warns-append :
    (provider model reason : Text) (xs ys : List Warning)
    → Warns provider model reason (xs ++ ys)
    → Warns provider model reason xs ⊎ Warns provider model reason ys
Warns-append provider model reason [] ys h = inr h
Warns-append provider model reason (x ∷ xs) ys (inl h) = inl (inl h)
Warns-append provider model reason (x ∷ xs) ys (inr h) =
    elim (Warns-append provider model reason xs ys h) [ inl a ↦ inl (inr a) | inr b ↦ inr b ]

>>=-skipped :
    (p : TokenPolicy) (r : Result ResolveError Selected)
    → r ≡ (r >>= λ rest. ok (add_selected none p rest))
>>=-skipped p (ok rest) = refl
>>=-skipped p (err e) = refl

module _ (K : LabelSelectors) where
  classify-selects :
      (p : TokenPolicy) → is_empty p.spec.selector ≡ false → classify K none [] p ≡ ok none
  unfolding classify
  classify-selects p h = rw h refl

  -- For a whole namespace, a policy with a selector may be left out.
  select_namespace-filterb :
      (tp : TokenPolicy) (ps : List TokenPolicy)
      → is_empty tp.spec.selector ≡ false
      → All (λ p. (other_than tp p ≡ true) ⊎ (p ≡ tp)) ps
      → select_namespace K none [] (filterb (other_than tp) ps) ≡ select_namespace K none [] ps
  unfolding select_namespace
  select_namespace-filterb tp [] s h = refl
  select_namespace-filterb tp (p ∷ ps) s (a, h) =
      let rest = select_namespace-filterb tp ps s h in
      elim (Bool-cases (other_than tp p)) [
        | inl o ↦ rw (filterb-kept (other_than tp) p ps o, rest) refl
        | inr o ↦
            let same : p ≡ tp = elim a [ inl b ↦ absurd (ground arith) | inr e ↦ e ] in
            rw (filterb-left (other_than tp) p ps o, rest, classify-selects p (rw same s))
              (>>=-skipped p (select_namespace K none [] ps))
      ]

module _ (K : LabelSelectors) (tp : TokenPolicy) (i : ResolveInput) (e base : Effective)
    (provider model : Text) where
  -- What the other policies refuse in the namespace is refused to each workload.
  others-refuse :
      is_empty tp.spec.selector ≡ false
      → All (λ p. (other_than tp p ≡ true) ⊎ (p ≡ tp)) i.namespace_policies
      → resolve K (record (namespace_scope i) {
        namespace_policies = filterb (other_than tp) i.namespace_policies;
      })
        ≡ ok base
      → (permit base provider model).allowed ≡ false
      → resolve K i ≡ ok e
      → (permit e provider model).allowed ≡ false
  unfolding resolve
  others-refuse s all b refused h = elim (Bool-cases (permit e provider model).allowed) [
    | inr a ↦ a
    | inl a ↦
        let (e', he, a') = permit-workload_narrows K i provider model e h a in
        let k = select_namespace-filterb K tp i.namespace_policies s all in
        let same : ok base ≡ ok e' = sym b ∙ rw k he in absurd (ground arith)
  ]

module _ (K : LabelSelectors) (c : Client) (provider model reason : Text) where
  credential_warning-other :
      (m : ModelPermission) (r : Option CredentialReference)
      → ¬ Warns provider model reason (credential_warning K c m r)
  unfolding credential_warning
  credential_warning-other m none h = h
  credential_warning-other m (some r) h = ground (arith, Fetch-cases (c.get_credential r.name))

  credential_warnings-other :
      (ms : List ModelPermission) → ¬ Warns provider model reason (credential_warnings K c ms)
  unfolding credential_warnings
  credential_warnings-other [] h = h
  credential_warnings-other (m ∷ ms) h =
      elim (Warns-append provider model reason (credential_warning K c m m.credential_ref)
        (credential_warnings K c ms) h) [
          | inl a ↦ credential_warning-other m m.credential_ref a
          | inr b ↦ credential_warnings-other ms b
        ]

  dead_rules-refused :
      (base : Effective) (ms : List ModelPermission)
      → Warns provider model reason (dead_rules K c base ms)
      → (permit base provider model).allowed ≡ false
  unfolding dead_rules
  dead_rules-refused base [] h = absurd h
  dead_rules-refused base (m ∷ ms) h = ground (arith, dead_rules-refused base ms)

  broader-some :
      (namespace : Text) (keep : TokenPolicy → Bool) (base : Effective)
      → broader K c namespace keep ≡ some base
      → (clusters : List ClusterTokenPolicy) × (policies : List TokenPolicy)
        × (c.list_cluster_policies ≡ ok clusters)
        × (c.list_policies namespace ≡ ok policies)
        × (resolve K (namespace_input K c namespace clusters (filterb keep policies)) ≡ ok base)
  unfolding broader
  broader-some namespace keep base h = elim (Result-cases c.list_cluster_policies) [
    | inr (x, e) ↦ absurd (ground arith)
    | inl (clusters, e) ↦ elim (Result-cases (c.list_policies namespace)) [
      | inr (x, f) ↦ absurd (ground arith)
      | inl (policies, f) ↦ (clusters, policies, e, f, ground arith)
    ]
  ]

  -- A warning is raised over the decision that the other policies make for the whole namespace.
  hierarchy_warnings-base :
      (tp : TokenPolicy)
      → Warns provider model reason (hierarchy_warnings K c tp)
      → (base : Effective) × (broader K c tp.namespace (other_than tp) ≡ some base)
        × ((permit base provider model).allowed ≡ false)
  unfolding hierarchy_warnings
  hierarchy_warnings-base tp h = elim (Option-cases (broader K c tp.namespace (other_than tp))) [
    | inl e ↦ absurd (rw (hierarchy_warnings, e) at h)
    | inr (base, e) ↦
        (base, e, dead_rules-refused base tp.spec.models (rw (hierarchy_warnings, e) at h))
  ]

  unless_problems-Warns :
      (ps : List Problem) (ws : List Warning)
      → Warns provider model reason (unless_problems K c ps ws).warnings
      → Warns provider model reason ws
  unless_problems-Warns [] ws h = h
  unless_problems-Warns (p ∷ ps) ws h = absurd h

  validate_token_policy-hierarchy :
      (tp : TokenPolicy)
      → Warns provider model reason (validate_token_policy K c tp).warnings
      → Warns provider model reason (hierarchy_warnings K c tp)
  unfolding validate_token_policy
  validate_token_policy-hierarchy tp h =
      elim (Warns-append provider model reason (credential_warnings K c tp.spec.models)
        (hierarchy_warnings K c tp) (unless_problems-Warns (token_policy_problems K c tp) _ h)) [
          | inl a ↦ absurd (credential_warnings-other tp.spec.models a)
          | inr b ↦ b
        ]

labels_or_none-found :
    (K : LabelSelectors) (c : Client) (namespace : Text) (labels : Labels)
    → namespace_labels c namespace ≡ ok labels
    → labels_or_none K c namespace ≡ labels
labels_or_none-found K c namespace labels h = ground arith

-- The webhook warns that a rule of a TokenPolicy with a selector has no effect. Once the policy is
-- written, and the cluster policies, the other policies and the labels of the namespace are as they
-- were, the pod webhook's decision for a workload of the namespace, if there is one, does not permit
-- the model that the warning names.
pub validate_token_policy-no_effect :
    (K : LabelSelectors) (before after : Client) (tp : TokenPolicy) (provider model reason : Text)
    (pod_labels : Option Labels) (sa : Text) (e : Effective)
    → is_empty tp.spec.selector ≡ false
    → Written tp before after
    → Some (λ w. w ≡ no_effect provider model reason) (validate_token_policy K before tp).warnings
    → resolve_effective K after tp.namespace pod_labels sa ≡ ok e
    → (permit e provider model).allowed ≡ false
validate_token_policy-no_effect K before after tp provider model reason pod_labels sa e s w h r =
    let (base, b, refused) =
      hierarchy_warnings-base K before provider model reason tp
        (validate_token_policy-hierarchy K before provider model reason tp h) in
    let (clusters, policies, hc, hp, hb) =
      broader-some K before provider model reason tp.namespace (other_than tp) base b in
    let (same_clusters, same_labels, old, new, ho, hn, others, all) = w in
    let (clusters', policies', labels, hc', hp', hl, r') =
      resolve_effective-ok K after tp.namespace pod_labels sa e r in
    let ec : clusters' ≡ clusters = ground arith in
    let ep : policies' ≡ new = ground arith in
    let eo : policies ≡ old = ground arith in
    let el = labels_or_none-found K before tp.namespace labels (sym same_labels ∙ hl) in
    others-refuse K tp
      (record {
        cluster_policies = clusters';
        namespace_policies = policies';
        namespace = tp.namespace;
        namespace_labels = labels;
        pod_labels = pod_labels;
        service_account = sa;
      })
      e base provider model s (rw ep all) (rw (ec, ep, others, ← eo, ← el) hb) refused r'
