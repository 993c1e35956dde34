-- ===== src/Policy/Resolve/Selection.antt =====
-- The policies that `Resolve` selects from the input, and that the errors of fewer policies are no
-- more.
use token_control.Common.{
  ◌≡◌, refl, ap, ◌⊎◌, inl, inr, Bool, List, [], ◌∷◌, if◌then◌else◌, Option, none, some, arith,
}
use token_control.Common.Result.{ok, >>=-returns, map_err}
use token_control.Text.{Text}
use token_control.Api.Selector.{Labels, LabelSelectors}
use token_control.Api.Policies.{ClusterTokenPolicy, TokenPolicy}
use token_control.Policy.Apply.{Level, namespace, workload}
use token_control.Policy.Selector.{selector_matches}
use token_control.Policy.Resolve.{
  ResolveInput, Selected, select_cluster, classify, select_namespace, add_selected, assemble,
  resolve, bad_namespace_selector,
}
use token_control.Policy.Effective.{Effective}

module _ (K : LabelSelectors) where
  -- A resolution that succeeds is the assembly of what its two selections return.
  pub resolve-ok :
      (i : ResolveInput) (e : Effective)
      → resolve K i ≡ ok e
      → (cs : List ClusterTokenPolicy) × (sel : Selected) × (select_cluster K i.namespace_labels
            i.cluster_policies
          ≡ ok cs)
        × (select_namespace K i.pod_labels i.service_account i.namespace_policies ≡ ok sel)
        × (assemble cs sel ≡ e)
  unfolding resolve
  resolve-ok i e h =
      let (cs, hc, h1) = >>=-returns (select_cluster K i.namespace_labels i.cluster_policies) _ h in
      let (sel, hs, h2) =
        >>=-returns (select_namespace K i.pod_labels i.service_account i.namespace_policies) _ h1 in
      (cs, sel, hc, hs, cc h2)

  pub resolve-of_selected :
      (i : ResolveInput) {cs : List ClusterTokenPolicy} {sel : Selected}
      → select_cluster K i.namespace_labels i.cluster_policies ≡ ok cs
      → select_namespace K i.pod_labels i.service_account i.namespace_policies ≡ ok sel
      → resolve K i ≡ ok (assemble cs sel)
  unfolding resolve
  resolve-of_selected i hc hs = rw (hc, hs)

  pub classify-no_identity :
      (pod_labels : Option Labels) (sa : Text) (p : TokenPolicy) (l : Option Level)
      → classify K pod_labels sa p ≡ ok l
      → (classify K none [] p ≡ ok (some namespace)) × (l ≡ some namespace)
        ⊎ (classify K none [] p ≡ ok none) × ((l ≡ none) ⊎ (l ≡ some workload))
  unfolding classify
  classify-no_identity pod_labels sa p l h = ground arith

  pub select_namespace-cons :
      (pod_labels : Option Labels) (sa : Text) (p : TokenPolicy) (ps : List TokenPolicy)
      (sel : Selected)
      → select_namespace K pod_labels sa (p ∷ ps) ≡ ok sel
      → (l : Option Level) × (rest : Selected) × (classify K pod_labels sa p ≡ ok l)
        × (select_namespace K pod_labels sa ps ≡ ok rest)
        × (add_selected l p rest ≡ sel)
  unfolding select_namespace
  select_namespace-cons pod_labels sa p ps sel h =
      let (l, hl, h1) = >>=-returns (classify K pod_labels sa p) _ h in
      let (rest, hr, h2) = >>=-returns (select_namespace K pod_labels sa ps) _ h1 in
      (l, rest, hl, hr, cc h2)

  pub select_cluster-cons :
      (labels : Labels) (p : ClusterTokenPolicy) (ps sel : List ClusterTokenPolicy)
      → select_cluster K labels (p ∷ ps) ≡ ok sel
      → (match : Bool) × (rest : List ClusterTokenPolicy) × (selector_matches K
            p.spec.namespace_selector labels
          ≡ ok match)
        × (select_cluster K labels ps ≡ ok rest)
        × ((if match then p ∷ rest else rest) ≡ sel)
  unfolding select_cluster
  select_cluster-cons labels p ps sel h =
      let (m, hm, h1) =
        >>=-returns
          (map_err (bad_namespace_selector p.name)
            (selector_matches K p.spec.namespace_selector labels))
          _ h in
      let (rest, hr, h2) = >>=-returns (select_cluster K labels ps) _ h1 in
      (m, rest, ground arith, hr, cc h2)

  defaults-add_selected :
      (l : Option Level) (p : TokenPolicy) (rest sel : Selected)
      → add_selected l p rest ≡ sel
      → ((l ≡ some namespace) × (p ∷ rest.ns_defaults ≡ sel.ns_defaults))
        ⊎ (((l ≡ none) ⊎ (l ≡ some workload)) × (rest.ns_defaults ≡ sel.ns_defaults))
  defaults-add_selected none p rest sel h = inr (inl refl, ap (λ (s : Selected). s.ns_defaults) h)
  defaults-add_selected (some namespace) p rest sel h =
      inl (refl, ap (λ (s : Selected). s.ns_defaults) h)
  defaults-add_selected (some workload) p rest sel h =
      inr (inr refl, ap (λ (s : Selected). s.ns_defaults) h)

  -- Without a pod identity the namespace defaults are the same and no workload policy is selected.
  pub select_namespace-no_identity :
      (pod_labels : Option Labels) (sa : Text) (ps : List TokenPolicy) (sel : Selected)
      → select_namespace K pod_labels sa ps ≡ ok sel
      → select_namespace K none [] ps
        ≡ ok (record { ns_defaults = sel.ns_defaults; wl_matched = [] })
  unfolding select_namespace
  select_namespace-no_identity pod_labels sa [] sel h = ground arith
  select_namespace-no_identity pod_labels sa (p ∷ ps) sel h =
      let (l, rest, hl, hr, same) = select_namespace-cons pod_labels sa p ps sel h in
      ground (
        arith,
        classify-no_identity pod_labels sa p l hl,
        select_namespace-no_identity pod_labels sa ps rest hr,
        defaults-add_selected l p rest sel same,
      )
