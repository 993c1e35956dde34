-- ===== src/Policy/Resolve.antt =====
-- `Resolve` and `ResolveForPolicy`.
pub mod Assembly
pub mod Listing
pub mod Order
pub mod Budget
pub mod Narrowing
pub mod Selection
pub mod Specific
pub mod Decisive
pub mod Sources
pub mod Target
mod Tests
use token_control.Common.{
  Bool, true, false, not, ◌&&◌, ◌||◌, List, [], ◌∷◌, ◌++◌, Option, none, some, any, is_nil, filterb,
  if◌then◌else◌,
}
use token_control.Common.Result.{Result, ok, ◌>>=◌, map_err}
use token_control.Common.Sort.{sort}
use token_control.Text.{Text, ◌==◌, before, codes}
use token_control.Api.{EnforcementMode}
use token_control.Api.Selector.{Labels, LabelSelectors, is_empty}
use token_control.Api.Policies.{ClusterTokenPolicy, TokenPolicy}
use token_control.Policy.Selector.{selector_matches, workload_matches}
use token_control.Policy.Tier.{Tier}
use token_control.Policy.Effective.{Effective}
use token_control.Policy.Apply.{
  State, Level, namespace, workload, by_name, sort_by_priority, apply_cluster, apply_namespace_tier,
  apply_each,
}

-- A nil map of pod labels is `none`.
pub record ResolveInput : Type 0 where
  pub cluster_policies : List ClusterTokenPolicy
  pub namespace_policies : List TokenPolicy
  pub namespace : Text
  pub namespace_labels : Labels
  pub pod_labels : Option Labels
  pub service_account : Text

-- The two errors, with the policy and the error that they wrap.
pub data ResolveError : Type 0 where
  bad_namespace_selector : Text → Text → ResolveError
  bad_selector : Text → Text → Text → ResolveError

abbrev empty_tier : Text → Tier
empty_tier name = record { name = name; rules = [] }

abbrev pub initial : State
initial = record {
  eff = record {
    governed = false;
    model_governed = false;
    enforcement = EnforcementMode.enforce;
    quota = none;
    gateway = none;
    default_credential = [];
    sources = [];
    cluster = empty_tier (codes "cluster");
    ns = empty_tier (codes "namespace");
    wl = empty_tier (codes "workload");
  };
  source_set = [];
}

-- The policies of a namespace by the tier that they belong to.
pub record Selected : Type 0 where
  pub ns_defaults : List TokenPolicy
  pub wl_matched : List TokenPolicy

abbrev pub has_rules : Effective → Bool
has_rules e = not (is_nil e.cluster.rules) || not (is_nil e.ns.rules) || not (is_nil e.wl.rules)

-- The three loops over the policies that apply, in their order.
unfoldable pub apply_all : List ClusterTokenPolicy → List TokenPolicy → List TokenPolicy → State
apply_all clusters defaults workloads =
    apply_each (apply_namespace_tier workload)
      (apply_each (apply_namespace_tier namespace)
        (apply_each apply_cluster initial (sort by_name clusters)) (sort_by_priority defaults))
      (sort_by_priority workloads)

-- `Resolve` from its second step on: what it makes of the policies that match.
unfoldable pub assemble : List ClusterTokenPolicy → Selected → Effective
assemble clusters sel =
    let s = apply_all clusters sel.ns_defaults sel.wl_matched in
    record s.eff {
      model_governed = has_rules s.eff;
      governed =
          not (is_nil clusters) || not (is_nil sel.ns_defaults) || not (is_nil sel.wl_matched);
      sources = sort before s.source_set;
    }

abbrev pub labels_of : Option Labels → Labels
labels_of none = []
labels_of (some l) = l

-- `in.PodLabels == nil && in.ServiceAccount == ""`
abbrev pub no_identity : Option Labels → Text → Bool
no_identity none sa = is_nil sa
no_identity (some l) sa = false

abbrev pub add_selected : Option Level → TokenPolicy → Selected → Selected
add_selected none p s = s
add_selected (some namespace) p s = record s { ns_defaults = p ∷ s.ns_defaults }
add_selected (some workload) p s = record s { wl_matched = p ∷ s.wl_matched }

module _ (K : LabelSelectors) where
  unfoldable pub select_cluster :
      Labels → List ClusterTokenPolicy → Result ResolveError (List ClusterTokenPolicy)
  select_cluster labels [] = ok []
  select_cluster labels (p ∷ ps) = do
    match ←
        map_err (bad_namespace_selector p.name)
          (selector_matches K p.spec.namespace_selector labels)
    rest ← select_cluster labels ps
    ok (if match then p ∷ rest else rest)

  -- The tier of a policy, or none if it is skipped.
  unfoldable pub classify : Option Labels → Text → TokenPolicy → Result ResolveError (Option Level)
  classify pod_labels sa p =
      if is_empty p.spec.selector
      then ok (some namespace)
      else if no_identity pod_labels sa
      then ok none
      else map_err (bad_selector p.namespace p.name)
          (workload_matches K p.spec.selector (labels_of pod_labels) sa)
        >>= λ match. ok (if match then some workload else none)

  unfoldable pub select_namespace :
      Option Labels → Text → List TokenPolicy → Result ResolveError Selected
  select_namespace pod_labels sa [] = ok (record { ns_defaults = []; wl_matched = [] })
  select_namespace pod_labels sa (p ∷ ps) = do
    level ← classify pod_labels sa p
    rest ← select_namespace pod_labels sa ps
    ok (add_selected level p rest)

  unfoldable pub resolve : ResolveInput → Result ResolveError Effective
  resolve i = do
    clusters ← select_cluster i.namespace_labels i.cluster_policies
    selected ← select_namespace i.pod_labels i.service_account i.namespace_policies
    ok (assemble clusters selected)

unfoldable pub append_unique : List Text → Text → List Text
append_unique s v = if any (λ e. e == v) s then s else s ++ (v ∷ [])

unfoldable pub append_all_unique : List Text → List Text → List Text
append_all_unique s [] = s
append_all_unique s (v ∷ vs) = append_all_unique (append_unique s v) vs

-- The end of `ResolveForPolicy` for a policy with a selector.
unfoldable pub fold_target : Effective → TokenPolicy → Effective
fold_target base target =
    let s = apply_namespace_tier workload (record { eff = base; source_set = [] }) target in
    record s.eff {
      model_governed = has_rules s.eff;
      governed = true;
      sources = sort before (append_all_unique base.sources s.source_set);
    }

abbrev pub same_policy : TokenPolicy → TokenPolicy → Bool
same_policy p q = p.namespace == q.namespace && p.name == q.name

unfoldable pub resolve_for_policy :
    LabelSelectors
    → List ClusterTokenPolicy
    → List TokenPolicy
    → Labels
    → TokenPolicy
    → Result ResolveError Effective
resolve_for_policy K cluster ns_policies ns_labels target =
    let rest = filterb (λ p. not (same_policy p target)) ns_policies in
    let scope : List TokenPolicy → ResolveInput = λ ps. record {
      cluster_policies = cluster;
      namespace_policies = ps;
      namespace = target.namespace;
      namespace_labels = ns_labels;
      pod_labels = none;
      service_account = [];
    } in
    if is_empty target.spec.selector
    then resolve K (scope (rest ++ (target ∷ [])))
    else resolve K (scope rest) >>= λ base. ok (fold_target base target)
