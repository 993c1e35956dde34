-- ===== src/Policy/Resolve/Target.antt =====
-- `ResolveForPolicy` decides for a policy what `Resolve` decides for a workload that only it selects.
use token_control.Common.{
  ◌≡◌, ◌⊎◌, ◌∙◌, inl, inr, refl, sym, ap, Bool, true, false, not, ◌||◌, List, [], ◌∷◌, is_nil,
  Option, none, some, All, arith, filterb, Bool-cases,
}
use token_control.Common.Result.{Result, ok}
use token_control.Common.Sort.{sort}
use token_control.Text.{Text}
use token_control.Text.Laws.{==_refl}
use token_control.Api.Selector.{Labels, LabelSelectors, is_empty}
use token_control.Api.Policies.{ClusterTokenPolicy, TokenPolicy}
use token_control.Policy.Effective.{Effective, permit}
use token_control.Policy.Apply.{
  Level, namespace, workload, apply_namespace_tier, apply_each, sort_by_priority,
}
use token_control.Policy.Resolve.{
  ResolveInput, ResolveError, Selected, apply_all, assemble, select_cluster, select_namespace,
  classify, add_selected, resolve, same_policy, fold_target, resolve_for_policy,
}
use token_control.Policy.Resolve.Selection.{
  resolve-of_selected, select_namespace-cons, classify-no_identity,
}

-- Two decisions differ in the sources at most.
abbrev pub SameDecision : Effective → Effective → Type 0
SameDecision a b =
    ((provider model : Text) → permit a provider model ≡ permit b provider model)
    × (a.governed ≡ b.governed)
    × (a.model_governed ≡ b.model_governed)
    × (a.enforcement ≡ b.enforcement)
    × (a.quota ≡ b.quota)
    × (a.gateway ≡ b.gateway)

governed-or : (a b : Bool) → true ≡ (a || b || true)
governed-or a b = ground arith

fold_target-SameDecision :
    (cs : List ClusterTokenPolicy) (ds : List TokenPolicy) (target : TokenPolicy)
    → SameDecision
        (fold_target (assemble cs (record { ns_defaults = ds; wl_matched = [] })) target)
        (assemble cs (record { ns_defaults = ds; wl_matched = target ∷ [] }))
unfolding fold_target assemble apply_all sort_by_priority sort apply_each apply_namespace_tier
    permit
fold_target-SameDecision cs ds target = (
  λ provider model. refl,
  governed-or (not (is_nil cs)) (not (is_nil ds)),
  refl,
  refl,
  refl,
  refl,
)

module _ (K : LabelSelectors) (target : TokenPolicy)
    (selects : is_empty target.spec.selector ≡ false) where
  -- A policy under the key of the target is the target.
  abbrev pub KeyIsTarget : TokenPolicy → Type 0
  KeyIsTarget p = (same_policy p target ≡ false) ⊎ (p ≡ target)

  abbrev others : List TokenPolicy → List TokenPolicy
  others ps = filterb (λ p. not (same_policy p target)) ps

  abbrev without_workload : Selected → Selected
  without_workload sel = record { ns_defaults = sel.ns_defaults; wl_matched = [] }

  target-level :
      (pod_labels : Option Labels) (sa : Text) (l : Option Level)
      → classify K pod_labels sa target ≡ ok l
      → (l ≡ none) ⊎ (l ≡ some workload)
  unfolding classify
  target-level pod_labels sa l h = ground arith

  skipped :
      (l : Option Level) (p : TokenPolicy) (rest : Selected)
      → (l ≡ none) ⊎ (l ≡ some workload)
      → (add_selected l p rest).ns_defaults ≡ rest.ns_defaults
  skipped l p rest h = ground arith

  same_policy_self : (p : TokenPolicy) → p ≡ target → same_policy p target ≡ true
  same_policy_self p e = rw e (ground (arith, ==_refl target.namespace, ==_refl target.name))

  kept :
      (p : TokenPolicy) (l : Option Level) (rest sel : Selected)
      → l ≡ some namespace
      → add_selected l p rest ≡ sel
      → ◌≡◌ {A = Result ResolveError Selected}
          (ok (add_selected (some namespace) p (without_workload rest)))
          (ok (without_workload sel))
  kept p l rest sel e h =
      let same : add_selected (some namespace) p rest ≡ sel =
        ap (λ m. add_selected m p rest) (sym e) ∙ h in
      ap (λ (t : Selected). ok (without_workload t)) same

  dropped :
      (pod_labels : Option Labels) (sa : Text) (p : TokenPolicy) (l : Option Level)
      (rest sel : Selected)
      → KeyIsTarget p
      → same_policy p target ≡ true
      → classify K pod_labels sa p ≡ ok l
      → add_selected l p rest ≡ sel
      → ◌≡◌ {A = Result ResolveError Selected}
          (ok (without_workload rest))
          (ok (without_workload sel))
  dropped pod_labels sa p l rest sel (inl e) t hl same = absurd (ground arith)
  dropped pod_labels sa p l rest sel (inr e) t hl same =
      let level = target-level pod_labels sa l (rw e at hl) in
      ap (λ ds. ok (record { ns_defaults = ds; wl_matched = [] }))
        (sym (skipped l p rest level) ∙ ap (λ (t : Selected). t.ns_defaults) same)

  others-drop :
      (p : TokenPolicy) (ps : List TokenPolicy)
      → same_policy p target ≡ true
      → others (p ∷ ps) ≡ others ps
  others-drop p ps h = ground arith

  others-keep :
      (p : TokenPolicy) (ps : List TokenPolicy)
      → same_policy p target ≡ false
      → others (p ∷ ps) ≡ p ∷ others ps
  others-keep p ps h = ground arith

  with_kept :
      (p : TokenPolicy) (l : Option Level) (ps : List TokenPolicy) (rest sel : Selected)
      → (classify K none [] p ≡ ok (some namespace)) × (l ≡ some namespace)
        ⊎ (classify K none [] p ≡ ok none) × ((l ≡ none) ⊎ (l ≡ some workload))
      → select_namespace K none [] ps ≡ ok (without_workload rest)
      → add_selected l p rest ≡ sel
      → select_namespace K none [] (p ∷ ps) ≡ ok (without_workload sel)
  unfolding select_namespace
  with_kept p l ps rest sel (inl (c, e)) later same = rw (c, later) (kept p l rest sel e same)
  with_kept p l ps rest sel (inr (c, e)) later same =
      rw (c, later)
        (ap (λ ds. ok (record { ns_defaults = ds; wl_matched = [] }))
          (sym (skipped l p rest e) ∙ ap (λ (t : Selected). t.ns_defaults) same))

  select_others :
      (pod_labels : Option Labels) (sa : Text) (ps : List TokenPolicy) (sel : Selected)
      → All KeyIsTarget ps
      → select_namespace K pod_labels sa ps ≡ ok sel
      → select_namespace K none [] (others ps) ≡ ok (without_workload sel)
  unfolding select_namespace
  select_others pod_labels sa [] sel k h =
      let same : record { ns_defaults = []; wl_matched = [] } ≡ sel = ground arith in
      ap (λ (t : Selected). ok (without_workload t)) same
  select_others pod_labels sa (p ∷ ps) sel (e, k) h =
      let (l, rest, hl, hr, same) = select_namespace-cons K pod_labels sa p ps sel h in
      let later = select_others pod_labels sa ps rest k hr in
      elim (Bool-cases (same_policy p target)) [
        | inl t ↦
            ap (select_namespace K none []) (others-drop p ps t)
            ∙ (later ∙ dropped pod_labels sa p l rest sel e t hl same)
        | inr f ↦
            ap (select_namespace K none []) (others-keep p ps f)
            ∙ with_kept p l (others ps) rest sel (classify-no_identity K pod_labels sa p l hl) later
                same
      ]

-- A policy with a selector, as the only policy under its name in the list. Where the cluster policies
-- and the policies of the namespace can be selected for a workload, and of those with a selector only
-- this one selects it: the policy and the workload resolve to decisions that agree in what they permit,
-- with which credential and which reason, in the mode, the quota, the gateway, and whether the scope
-- and its models are governed.
pub resolve_for_policy-SameDecision :
    (K : LabelSelectors) (target : TokenPolicy) (i : ResolveInput) (cs : List ClusterTokenPolicy)
    (ds : List TokenPolicy)
    → is_empty target.spec.selector ≡ false
    → All (λ p. (same_policy p target ≡ false) ⊎ (p ≡ target)) i.namespace_policies
    → select_cluster K i.namespace_labels i.cluster_policies ≡ ok cs
    → select_namespace K i.pod_labels i.service_account i.namespace_policies
      ≡ ok (record { ns_defaults = ds; wl_matched = target ∷ [] })
    → (a : Effective) × (b : Effective) × (resolve_for_policy K i.cluster_policies
          i.namespace_policies i.namespace_labels target
        ≡ ok a)
      × (resolve K i ≡ ok b)
      × SameDecision a b
unfolding resolve_for_policy
resolve_for_policy-SameDecision K target i cs ds selects unique hc hs =
    let base = assemble cs (record { ns_defaults = ds; wl_matched = [] }) in
    let scope : ResolveInput = record {
      cluster_policies = i.cluster_policies;
      namespace_policies = others K target selects i.namespace_policies;
      namespace = target.namespace;
      namespace_labels = i.namespace_labels;
      pod_labels = none;
      service_account = [];
    } in
    let inherited : resolve K scope ≡ ok base = resolve-of_selected K scope hc (
      select_others K target selects i.pod_labels i.service_account i.namespace_policies _ unique
        hs) in
    (
      fold_target base target,
      assemble cs (record { ns_defaults = ds; wl_matched = target ∷ [] }),
      rw (selects, inherited) refl,
      resolve-of_selected K i hc hs,
      fold_target-SameDecision cs ds target,
    )
