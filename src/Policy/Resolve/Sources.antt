-- ===== src/Policy/Resolve/Sources.antt =====
-- The sources of a decision: the policies with rules or a quota that apply to the scope.
use token_control.Common.{◌≡◌, ◌↔◌, true, List, [], ◌∷◌, All, Bool-cases, inl, inr, arith}
use token_control.Common.Result.{ok}
use token_control.Common.Sort.{insert, sort, insert-All, sort-All, All-imp, Distinct}
use token_control.Text.{Text, before}
use token_control.Text.Laws.{OtherText, eq_iff, before_trans, before_apart}
use token_control.Api.Selector.{LabelSelectors}
use token_control.Api.Policies.{ClusterTokenPolicy, TokenPolicy}
use token_control.Policy.Effective.{Effective}
use token_control.Policy.Apply.{
  namespace, workload, cluster_source, policy_source, apply_cluster, apply_namespace_tier, by_name,
  by_priority, sort_by_priority,
}
use token_control.Policy.Apply.Sources.{
  contributes, cluster-sources, namespace-sources, apply_each-sources, cluster-Distinct,
  namespace-Distinct, apply_each-Distinct,
}
use token_control.Policy.Resolve.{ResolveInput, Selected, initial, apply_all, assemble, resolve}
use token_control.Policy.Resolve.Selection.{resolve-ok}
use token_control.Policy.Resolve.Budget.{
  ClusterApplies, NamespaceApplies, select_cluster-All, select_namespace-All,
}

abbrev pub Before : Text → Text → Type 0
Before s t = before s t ≡ true

insert-Before :
    (x : Text) (l : List Text)
    → All (OtherText x) l
    → Distinct Before l
    → Distinct Before (insert before x l)
unfolding insert
insert-Before x [] o h = (tt, tt)
insert-Before x (y ∷ l) o h = elim (Bool-cases (before y x)) [
  | inl e ↦
      rw (e, insert) ((insert-All before (Before y) x l).1 (e, h.0), insert-Before x l o.1 h.1)
  | inr e ↦
      let other = before_apart x y (λ k. absurd (ground (arith, (eq_iff x y).1 k, o.0))) in
      let apart : before x y ≡ true = ground arith in
      rw (e, insert)
        ((apart, All-imp (Before y) (Before x) (λ z k. before_trans x y z apart k) l h.0), h)
]

-- Texts that are all different are sorted strictly.
sort-Before : (l : List Text) → Distinct OtherText l → Distinct Before (sort before l)
unfolding sort
sort-Before [] h = tt
sort-Before (x ∷ l) h =
    insert-Before x (sort before l) ((sort-All before (OtherText x) l).1 h.0) (sort-Before l h.1)

module _ (cs : List ClusterTokenPolicy) (sel : Selected) where
  assemble-Distinct : Distinct Before (assemble cs sel).sources
  unfolding assemble apply_all sort_by_priority
  assemble-Distinct = sort-Before (apply_all cs sel.ns_defaults sel.wl_matched).source_set (
      apply_each-Distinct (apply_namespace_tier workload) (namespace-Distinct workload) _
        (sort by_priority sel.wl_matched)
        (apply_each-Distinct (apply_namespace_tier namespace) (namespace-Distinct namespace) _
          (sort by_priority sel.ns_defaults)
          (apply_each-Distinct apply_cluster cluster-Distinct initial (sort by_name cs) tt)))

-- The policy contributes, and the predicate holds of its source.
abbrev pub ClusterSource : (Text → Type 0) → ClusterTokenPolicy → Type 0
ClusterSource P p = contributes p.spec.models p.spec.quota ≡ true → P (cluster_source p)

abbrev pub PolicySource : (Text → Type 0) → TokenPolicy → Type 0
PolicySource P p = contributes p.spec.models p.spec.quota ≡ true → P (policy_source p)

module _ (cs : List ClusterTokenPolicy) (sel : Selected) (P : Text → Type 0) where
  assemble-sources : All P (assemble cs sel).sources ↔ (
      All (ClusterSource P) cs
      × All (PolicySource P) sel.ns_defaults
      × All (PolicySource P) sel.wl_matched)
  unfolding assemble apply_all sort_by_priority
  assemble-sources =
      let wls =
        apply_each-sources P (apply_namespace_tier workload) (PolicySource P)
          (namespace-sources P workload) _ (sort by_priority sel.wl_matched) in
      let dfs =
        apply_each-sources P (apply_namespace_tier namespace) (PolicySource P)
          (namespace-sources P namespace) _ (sort by_priority sel.ns_defaults) in
      let cls =
        apply_each-sources P apply_cluster (ClusterSource P) (cluster-sources P) initial
          (sort by_name cs) in
      let sorted = sort-All before P (apply_all cs sel.ns_defaults sel.wl_matched).source_set in
      (
        λ h.
            let (w, h2) = wls.0 (sorted.0 h) in
            let (d, h1) = dfs.0 h2 in
            let (k, h0) = cls.0 h1 in
            (
              (sort-All by_name (ClusterSource P) cs).0 k,
              (sort-All by_priority (PolicySource P) sel.ns_defaults).0 d,
              (sort-All by_priority (PolicySource P) sel.wl_matched).0 w,
            ),
        λ (k, d, w).
            let ks = (sort-All by_name (ClusterSource P) cs).1 k in
            let ds = (sort-All by_priority (PolicySource P) sel.ns_defaults).1 d in
            let ws = (sort-All by_priority (PolicySource P) sel.wl_matched).1 w in
            sorted.1 (wls.1 (ws, dfs.1 (ds, cls.1 (ks, tt)))),
      )

-- The sources of a decision are sorted and all different. A predicate holds of all of them exactly
-- when it holds of the source of every policy that applies to the scope and has rules or a quota; so
-- the sources are those of these policies and no others.
pub resolve-sources :
    (K : LabelSelectors) (i : ResolveInput) (e : Effective) (P : Text → Type 0)
    → resolve K i ≡ ok e
    → Distinct Before e.sources
      × (All P e.sources ↔ (
          All (λ p. ClusterApplies K i.namespace_labels p → ClusterSource P p) i.cluster_policies
          × All
              (λ p. NamespaceApplies K i.pod_labels i.service_account p → PolicySource P p)
              i.namespace_policies))
resolve-sources K i e P h =
    let (cs, sel, hc, hs, same) = resolve-ok K i e h in
    let cls = select_cluster-All K (ClusterSource P) i.namespace_labels i.cluster_policies cs hc in
    let nss =
      select_namespace-All K (PolicySource P) i.pod_labels i.service_account i.namespace_policies
        sel hs in
    let all = assemble-sources cs sel P in
    (
      rw (← same) (assemble-Distinct cs sel),
      (
        λ k. let (a, b, d) = all.0 (rw same k) in (cls.0 a, nss.0 (b, d)),
        λ (a, b). let (ns, wl) = nss.1 b in rw (← same) (all.1 (cls.1 a, ns, wl)),
      ),
    )
