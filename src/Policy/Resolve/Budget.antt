-- ===== src/Policy/Resolve/Budget.antt =====
-- The effective quota of a scope is the tightest one that its policies set, and no tighter.
use token_control.Common.{
  ◌≡◌, ◌↔◌, Bool, true, false, List, [], ◌∷◌, Option, none, some, All, arith, if◌then◌else◌,
}
use token_control.Common.Result.{ok}
use token_control.Text.{Text}
use token_control.Api.{TokenQuota}
use token_control.Api.Selector.{Labels, LabelSelectors}
use token_control.Api.Policies.{ClusterTokenPolicy, TokenPolicy}
use token_control.Policy.Quota.Limits.{Tighter}
use token_control.Policy.Selector.{selector_matches}
use token_control.Policy.Effective.{Effective}
use token_control.Policy.Apply.{Level, namespace, workload}
use token_control.Policy.Resolve.{
  ResolveInput, Selected, select_cluster, classify, select_namespace, add_selected, resolve,
}
use token_control.Policy.Resolve.Assembly.{assemble-Tighter}
use token_control.Policy.Resolve.Selection.{resolve-ok, select_cluster-cons, select_namespace-cons}

-- A cluster policy selects the namespace.
abbrev pub ClusterApplies : LabelSelectors → Labels → ClusterTokenPolicy → Type 0
ClusterApplies K labels p = selector_matches K p.spec.namespace_selector labels ≡ ok true

-- A policy of the namespace belongs to the namespace tier or to the workload tier of the scope.
abbrev pub NamespaceApplies : LabelSelectors → Option Labels → Text → TokenPolicy → Type 0
NamespaceApplies K pod_labels sa p = (l : Level) × (classify K pod_labels sa p ≡ ok (some l))

module _ (K : LabelSelectors) where
  module _ (P : ClusterTokenPolicy → Type 0) (labels : Labels) where
    if-All :
        (match : Bool) (p : ClusterTokenPolicy) (rest : List ClusterTokenPolicy)
        → selector_matches K p.spec.namespace_selector labels ≡ ok match
        → All P (if match then p ∷ rest else rest)
          ↔ ((ClusterApplies K labels p → P p) × All P rest)
    if-All true p rest e = (λ h. (λ _. h.0, h.1), λ h. (h.0 e, h.1))
    if-All false p rest e = (λ h. (λ f. absurd (ground arith), h), λ h. h.1)

    pub select_cluster-All :
        (ps cs : List ClusterTokenPolicy)
        → select_cluster K labels ps ≡ ok cs
        → All P cs ↔ All (λ p. ClusterApplies K labels p → P p) ps
    unfolding select_cluster
    select_cluster-All [] [] h = (λ k. k, λ k. k)
    select_cluster-All [] (c ∷ cs) h = absurd (ground arith)
    select_cluster-All (p ∷ ps) cs h =
        let (m, rest, hm, hr, same) = select_cluster-cons K labels p ps cs h in
        let first = if-All m p rest hm in
        let later = select_cluster-All ps rest hr in
        (
          λ k. let (a, b) = first.0 (rw same k) in (a, later.0 b),
          λ k. rw (← same) (first.1 (k.0, later.1 k.1)),
        )

  module _ (P : TokenPolicy → Type 0) (pod_labels : Option Labels) (sa : Text) where
    abbrev pub Each : Selected → Type 0
    Each s = All P s.ns_defaults × All P s.wl_matched

    add_selected-Each :
        (l : Option Level) (p : TokenPolicy) (rest : Selected)
        → classify K pod_labels sa p ≡ ok l
        → Each (add_selected l p rest) ↔ ((NamespaceApplies K pod_labels sa p → P p) × Each rest)
    add_selected-Each none p rest e = (λ h. (λ (l, f). absurd (ground arith), h), λ h. h.1)
    add_selected-Each (some namespace) p rest e =
        (λ h. (λ _. h.0.0, (h.0.1, h.1)), λ h. ((h.0 (namespace, e), h.1.0), h.1.1))
    add_selected-Each (some workload) p rest e =
        (λ h. (λ _. h.1.0, (h.0, h.1.1)), λ h. (h.1.0, (h.0 (workload, e), h.1.1)))

    pub select_namespace-All :
        (ps : List TokenPolicy) (sel : Selected)
        → select_namespace K pod_labels sa ps ≡ ok sel
        → Each sel ↔ All (λ p. NamespaceApplies K pod_labels sa p → P p) ps
    unfolding select_namespace
    select_namespace-All [] sel h =
        let e : sel ≡ record { ns_defaults = []; wl_matched = [] } = ground arith in
        (λ _. tt, λ _. rw e (tt, tt))
    select_namespace-All (p ∷ ps) sel h =
        let (l, rest, hl, hr, same) = select_namespace-cons K pod_labels sa p ps sel h in
        let first = add_selected-Each l p rest hl in
        let later = select_namespace-All ps rest hr in
        (
          λ k. let (a, b) = first.0 (rw same k) in (a, later.0 b),
          λ k. rw (← same) (first.1 (k.0, later.1 k.1)),
        )

-- A quota is within the effective quota, in every field, exactly when it is within the quota of every
-- policy that applies: those of the cluster that select the namespace, the defaults of the
-- namespace, and the workload policies that match. So no tier raises a limit of another.
pub resolve-Tighter :
    (K : LabelSelectors) (i : ResolveInput) (e : Effective) (c : Option TokenQuota)
    → resolve K i ≡ ok e
    → Tighter c e.quota ↔ (
        All (λ p. ClusterApplies K i.namespace_labels p → Tighter c p.spec.quota) i.cluster_policies
        × All
            (λ p. NamespaceApplies K i.pod_labels i.service_account p → Tighter c p.spec.quota)
            i.namespace_policies)
resolve-Tighter K i e c h =
    let (cs, sel, hc, hs, same) = resolve-ok K i e h in
    let cls =
      select_cluster-All K (λ p. Tighter c p.spec.quota) i.namespace_labels i.cluster_policies cs
        hc in
    let nss =
      select_namespace-All K (λ p. Tighter c p.spec.quota) i.pod_labels i.service_account
        i.namespace_policies sel hs in
    let all = assemble-Tighter cs sel c in
    (
      λ k. let (a, b, d) = all.0 (rw same k) in (cls.0 a, nss.0 (b, d)),
      λ (a, b). let (ns, wl) = nss.1 b in rw (← same) (all.1 (cls.1 a, ns, wl)),
    )
