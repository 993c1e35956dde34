-- ===== src/Policy/Resolve/Specific.antt =====
-- Which policy decides the enforcement mode and the gateway: the most specific one that sets it.
use token_control.Common.{
  ◌≡◌, ◌⊎◌, ◌∙◌, inl, inr, sym, true, false, List, Option, none, some, arith,
}
use token_control.Common.Result.{ok}
use token_control.Common.Sort.{sort}
use token_control.Text.Laws.{before_asymm, before_negtrans}
use token_control.Api.{EnforcementMode, GatewayIntegration}
use token_control.Api.Selector.{LabelSelectors}
use token_control.Api.Policies.{ClusterTokenPolicy, TokenPolicy}
use token_control.Policy.Effective.{Effective}
use token_control.Policy.Apply.{
  State, Level, namespace, workload, apply_cluster, apply_namespace_tier, apply_each, by_name,
  by_priority, sort_by_priority, enforcement_or, or_else,
}
use token_control.Policy.Apply.Latest.{Silent, Top, apply_each-Top, sort-Silent}
use token_control.Policy.Resolve.{
  ResolveInput, Selected, initial, apply_all, assemble, select_cluster, select_namespace, resolve,
}
use token_control.Policy.Resolve.Selection.{resolve-of_selected}

by_name_asymm : (p q : ClusterTokenPolicy) → by_name p q ≡ true → by_name q p ≡ false
by_name_asymm p q h = before_asymm p.name q.name h

by_name_negtrans :
    (p q r : ClusterTokenPolicy) → by_name p q ≡ false → by_name q r ≡ false → by_name p r ≡ false
by_name_negtrans p q r h k = before_negtrans p.name q.name r.name h k

by_priority_asymm : (p q : TokenPolicy) → by_priority p q ≡ true → by_priority q p ≡ false
by_priority_asymm p q h = ground (arith, before_asymm p.name q.name)

by_priority_negtrans :
    (p q r : TokenPolicy)
    → by_priority p q ≡ false
    → by_priority q r ≡ false
    → by_priority p r ≡ false
by_priority_negtrans p q r h k = ground (arith, before_negtrans p.name q.name r.name)

-- What a policy sets the mode and the gateway to.
abbrev pub mode_set : EnforcementMode → Option EnforcementMode
mode_set EnforcementMode.unset = none
mode_set m = some m

abbrev pub gateway_set : Option GatewayIntegration → Option (Option GatewayIntegration)
gateway_set none = none
gateway_set (some g) = some (some g)

-- The value that the most specific policy sets: the workload policy of the highest priority that sets
-- it; failing that, such a policy of the namespace; failing that, the cluster policy whose name is
-- last; and failing that, the default.
abbrev pub MostSpecific :
    {B : Type 0}
    → (ClusterTokenPolicy → Option B)
    → (TokenPolicy → Option B)
    → List ClusterTokenPolicy
    → Selected
    → B
    → B
    → Type 0
MostSpecific cluster policy cs sel default v =
    Top by_priority policy sel.wl_matched v
    ⊎ (Silent policy sel.wl_matched
        × (Top by_priority policy sel.ns_defaults v
            ⊎ (Silent policy sel.ns_defaults
                × (Top by_name cluster cs v ⊎ (Silent cluster cs × (v ≡ default))))))

-- A field that every loop overwrites where a policy sets it.
module _ {B : Type 0} (part : State → B) (cluster : ClusterTokenPolicy → Option B)
    (policy : TokenPolicy → Option B)
    (cluster_keeps : (s : State) (p : ClusterTokenPolicy)
      → cluster p ≡ none
      → part (apply_cluster s p) ≡ part s)
    (cluster_takes : (s : State) (p : ClusterTokenPolicy) (v : B)
      → cluster p ≡ some v
      → part (apply_cluster s p) ≡ v)
    (policy_keeps : (l : Level) (s : State) (p : TokenPolicy)
      → policy p ≡ none
      → part (apply_namespace_tier l s p) ≡ part s)
    (policy_takes : (l : Level) (s : State) (p : TokenPolicy) (v : B)
      → policy p ≡ some v
      → part (apply_namespace_tier l s p) ≡ v) where
  level-Top :
      (l : Level) (s : State) (ps : List TokenPolicy) (v : B)
      → Top by_priority policy ps v
      → part (apply_each (apply_namespace_tier l) s (sort by_priority ps)) ≡ v
  level-Top l =
      apply_each-Top (apply_namespace_tier l) part policy (policy_keeps l) (policy_takes l)
        by_priority by_priority_asymm by_priority_negtrans

  level-Silent :
      (l : Level) (s : State) (ps : List TokenPolicy)
      → Silent policy ps
      → part (apply_each (apply_namespace_tier l) s (sort by_priority ps)) ≡ part s
  level-Silent l =
      sort-Silent (apply_namespace_tier l) part policy (policy_keeps l) (policy_takes l) by_priority
        by_priority_asymm by_priority_negtrans

  apply_all-MostSpecific :
      (cs : List ClusterTokenPolicy) (sel : Selected) (v : B)
      → MostSpecific cluster policy cs sel (part initial) v
      → part (apply_all cs sel.ns_defaults sel.wl_matched) ≡ v
  unfolding apply_all sort_by_priority
  apply_all-MostSpecific cs sel v (inl top) = level-Top workload _ sel.wl_matched v top
  apply_all-MostSpecific cs sel v (inr (w, inl top)) =
      level-Silent workload _ sel.wl_matched w ∙ level-Top namespace _ sel.ns_defaults v top
  apply_all-MostSpecific cs sel v (inr (w, inr (n, inl top))) =
      level-Silent workload _ sel.wl_matched w
      ∙ (level-Silent namespace _ sel.ns_defaults n
          ∙ apply_each-Top apply_cluster part cluster cluster_keeps cluster_takes by_name
              by_name_asymm by_name_negtrans initial cs v top)
  apply_all-MostSpecific cs sel v (inr (w, inr (n, inr (c, e)))) =
      level-Silent workload _ sel.wl_matched w
      ∙ (level-Silent namespace _ sel.ns_defaults n
          ∙ (sort-Silent apply_cluster part cluster cluster_keeps cluster_takes by_name
                by_name_asymm by_name_negtrans initial cs c
              ∙ sym e))

enforcement_or-none :
    (new old : EnforcementMode) → mode_set new ≡ none → enforcement_or new old ≡ old
enforcement_or-none new old h = ground arith

enforcement_or-some :
    (new old v : EnforcementMode) → mode_set new ≡ some v → enforcement_or new old ≡ v
enforcement_or-some new old v h = ground arith

or_else-none :
    (new old : Option GatewayIntegration) → gateway_set new ≡ none → or_else new old ≡ old
or_else-none new old h = ground arith

or_else-some :
    (new old v : Option GatewayIntegration) → gateway_set new ≡ some v → or_else new old ≡ v
or_else-some new old v h = ground arith

module _ (cs : List ClusterTokenPolicy) (sel : Selected) where
  pub assemble-enforcement :
      (mode : EnforcementMode)
      → MostSpecific
          (λ p. mode_set p.spec.enforcement)
          (λ p. mode_set p.spec.enforcement)
          cs
          sel
          EnforcementMode.enforce
          mode
      → (assemble cs sel).enforcement ≡ mode
  unfolding assemble apply_cluster apply_namespace_tier
  assemble-enforcement mode =
      apply_all-MostSpecific (λ s. s.eff.enforcement) (λ p. mode_set p.spec.enforcement)
        (λ p. mode_set p.spec.enforcement)
        (λ s p. enforcement_or-none p.spec.enforcement s.eff.enforcement)
        (λ s p. enforcement_or-some p.spec.enforcement s.eff.enforcement)
        (λ l s p. enforcement_or-none p.spec.enforcement s.eff.enforcement)
        (λ l s p. enforcement_or-some p.spec.enforcement s.eff.enforcement) cs sel mode

  pub assemble-gateway :
      (gw : Option GatewayIntegration)
      → MostSpecific
          (λ p. gateway_set p.spec.gateway)
          (λ p. gateway_set p.spec.gateway)
          cs
          sel
          none
          gw
      → (assemble cs sel).gateway ≡ gw
  unfolding assemble apply_cluster apply_namespace_tier
  assemble-gateway gw =
      apply_all-MostSpecific (λ s. s.eff.gateway) (λ p. gateway_set p.spec.gateway)
        (λ p. gateway_set p.spec.gateway) (λ s p. or_else-none p.spec.gateway s.eff.gateway)
        (λ s p. or_else-some p.spec.gateway s.eff.gateway)
        (λ l s p. or_else-none p.spec.gateway s.eff.gateway)
        (λ l s p. or_else-some p.spec.gateway s.eff.gateway) cs sel gw

-- Where the policies that apply can be selected, the input resolves, and the enforcement mode and the
-- gateway of the decision are those that the most specific policy sets: the workload policy of the
-- highest priority that sets the field; failing that, such a policy of the namespace; failing that, the
-- cluster policy whose name is last; and failing that, mode Enforce and no gateway.
pub resolve-MostSpecific :
    (K : LabelSelectors) (i : ResolveInput) (cs : List ClusterTokenPolicy) (sel : Selected)
    (mode : EnforcementMode) (gw : Option GatewayIntegration)
    → select_cluster K i.namespace_labels i.cluster_policies ≡ ok cs
    → select_namespace K i.pod_labels i.service_account i.namespace_policies ≡ ok sel
    → MostSpecific
        (λ p. mode_set p.spec.enforcement)
        (λ p. mode_set p.spec.enforcement)
        cs
        sel
        EnforcementMode.enforce
        mode
    → MostSpecific
        (λ p. gateway_set p.spec.gateway)
        (λ p. gateway_set p.spec.gateway)
        cs
        sel
        none
        gw
    → (e : Effective) × (resolve K i ≡ ok e) × (e.enforcement ≡ mode) × (e.gateway ≡ gw)
resolve-MostSpecific K i cs sel mode gw hc hs hm hg = (
  assemble cs sel,
  resolve-of_selected K i hc hs,
  assemble-enforcement cs sel mode hm,
  assemble-gateway cs sel gw hg,
)
