-- ===== src/Policy/Resolve/Assembly.antt =====
-- The tiers and the quota that `Resolve` puts together from the policies that match.
use token_control.Common.{◌≡◌, ap, ◌∙◌, ◌↔◌, List, [], Option, none, All}
use token_control.Common.Sort.{sort, sort-All}
use token_control.Api.{TokenQuota}
use token_control.Api.Policies.{ClusterTokenPolicy, TokenPolicy}
use token_control.Policy.Quota.Limits.{Tighter}
use token_control.Policy.Tier.{Tier}
use token_control.Policy.Apply.{
  State, namespace, workload, apply_cluster, apply_namespace_tier, apply_each, by_name, by_priority,
  sort_by_priority,
}
use token_control.Policy.Apply.Fields.{
  apply_each-keeps, workload-keeps_cluster, workload-keeps_ns, namespace-keeps_cluster,
  namespace-keeps_wl, cluster-keeps_ns, cluster-keeps_wl, apply_each-Tighter, cluster-Tighter,
  namespace-Tighter,
}
use token_control.Policy.Resolve.{Selected, initial, apply_all, assemble}

-- After the loop over the cluster policies, and after the one over the namespace defaults.
abbrev after_clusters : List ClusterTokenPolicy → State
after_clusters cs = apply_each apply_cluster initial (sort by_name cs)

abbrev after_defaults : List ClusterTokenPolicy → List TokenPolicy → State
after_defaults cs ds =
    apply_each (apply_namespace_tier namespace) (after_clusters cs) (sort by_priority ds)

module _ (cs : List ClusterTokenPolicy) (sel : Selected) where
  -- The cluster tier depends on the cluster policies alone.
  pub assemble-cluster : (assemble cs sel).cluster ≡ (after_clusters cs).eff.cluster
  unfolding assemble apply_all sort_by_priority
  assemble-cluster =
      apply_each-keeps (apply_namespace_tier workload) (λ s. s.eff.cluster) workload-keeps_cluster
        (after_defaults cs sel.ns_defaults) (sort by_priority sel.wl_matched)
      ∙ apply_each-keeps (apply_namespace_tier namespace) (λ s. s.eff.cluster)
          namespace-keeps_cluster (after_clusters cs) (sort by_priority sel.ns_defaults)

  -- The namespace tier depends on the cluster policies and the namespace defaults.
  pub assemble-ns : (assemble cs sel).ns ≡ (after_defaults cs sel.ns_defaults).eff.ns
  unfolding assemble apply_all sort_by_priority
  assemble-ns =
      apply_each-keeps (apply_namespace_tier workload) (λ s. s.eff.ns) workload-keeps_ns
        (after_defaults cs sel.ns_defaults) (sort by_priority sel.wl_matched)

  -- A quota is within the assembled one exactly when it is within that of every policy.
  pub assemble-Tighter :
      (c : Option TokenQuota)
      → Tighter c (assemble cs sel).quota ↔ (
          All (λ p. Tighter c p.spec.quota) cs
          × All (λ p. Tighter c p.spec.quota) sel.ns_defaults
          × All (λ p. Tighter c p.spec.quota) sel.wl_matched)
  unfolding assemble apply_all sort_by_priority
  assemble-Tighter c = (
    λ h.
        let (h2, w) = wls.0 h in
        let (h1, d) = dfs.0 h2 in
        let (h0, k) = cls.0 h1 in
        (
          (sort-All by_name (λ p. Tighter c p.spec.quota) cs).0 k,
          (sort-All by_priority (λ p. Tighter c p.spec.quota) sel.ns_defaults).0 d,
          (sort-All by_priority (λ p. Tighter c p.spec.quota) sel.wl_matched).0 w,
        ),
    λ (k, d, w). wls.1 (
      dfs.1 (
        cls.1 ((tt, tt, tt, tt), (sort-All by_name (λ p. Tighter c p.spec.quota) cs).1 k),
        (sort-All by_priority (λ p. Tighter c p.spec.quota) sel.ns_defaults).1 d,
      ),
      (sort-All by_priority (λ p. Tighter c p.spec.quota) sel.wl_matched).1 w,
    ),
  )
    where
      cls :
          Tighter c (after_clusters cs).eff.quota
          ↔ (Tighter c none × All (λ p. Tighter c p.spec.quota) (sort by_name cs))
      cls =
          apply_each-Tighter apply_cluster (λ p. p.spec.quota) c (cluster-Tighter c) initial
            (sort by_name cs)

      dfs : Tighter c (after_defaults cs sel.ns_defaults).eff.quota ↔ (
          Tighter c (after_clusters cs).eff.quota
          × All (λ p. Tighter c p.spec.quota) (sort by_priority sel.ns_defaults))
      dfs =
          apply_each-Tighter (apply_namespace_tier namespace) (λ p. p.spec.quota) c
            (namespace-Tighter namespace c) (after_clusters cs) (sort by_priority sel.ns_defaults)

      wls : Tighter c (assemble cs sel).quota ↔ (
          Tighter c (after_defaults cs sel.ns_defaults).eff.quota
          × All (λ p. Tighter c p.spec.quota) (sort by_priority sel.wl_matched))
      wls =
          apply_each-Tighter (apply_namespace_tier workload) (λ p. p.spec.quota) c
            (namespace-Tighter workload c) (after_defaults cs sel.ns_defaults)
            (sort by_priority sel.wl_matched)

-- Without workload policies the workload tier has no rule.
pub assemble-wl :
    (cs : List ClusterTokenPolicy) (ds : List TokenPolicy)
    → (assemble cs (record { ns_defaults = ds; wl_matched = [] })).wl.rules ≡ []
unfolding assemble apply_all sort_by_priority sort apply_each
assemble-wl cs ds =
    ap (λ (t : Tier). t.rules)
      (apply_each-keeps (apply_namespace_tier namespace) (λ s. s.eff.wl) namespace-keeps_wl
          (after_clusters cs) (sort by_priority ds)
        ∙ apply_each-keeps apply_cluster (λ s. s.eff.wl) cluster-keeps_wl initial (sort by_name cs))

-- Without namespace defaults the namespace tier has no rule.
pub assemble-ns_rules :
    (cs : List ClusterTokenPolicy) (ws : List TokenPolicy)
    → (assemble cs (record { ns_defaults = []; wl_matched = ws })).ns.rules ≡ []
unfolding assemble apply_all sort_by_priority sort apply_each
assemble-ns_rules cs ws =
    ap (λ (t : Tier). t.rules)
      (apply_each-keeps (apply_namespace_tier workload) (λ s. s.eff.ns) workload-keeps_ns
          (after_clusters cs) (sort by_priority ws)
        ∙ apply_each-keeps apply_cluster (λ s. s.eff.ns) cluster-keeps_ns initial (sort by_name cs))
