-- ===== src/Policy/Tests.antt =====
-- Runs of the resolver, and its theorems at concrete policies.
use mathlib.Core.List.{Permᴰ}
use token_control.Common.{
  ◌≡◌, ◌↔◌, ◌⊎◌, refl, true, false, ◌&&◌, ◌||◌, List, [], ◌∷◌, some, any, All, arith,
}
use token_control.Common.Int.{pos}
use token_control.Common.Result.{Result, ok}
use token_control.Common.Sort.{sort, Distinct}
use token_control.Text.{Text, ◌==◌, before, codes, to_lower, trim_space, non_empty}
use token_control.Api.Selector.{is_empty}
use token_control.Policy.Glob.{Term, parse, fold, glob_match}
use token_control.Policy.Glob.Relation.{Matches}
use token_control.Policy.Glob.Decides.{glob_match-Matches}
use token_control.Policy.Quota.{min_quota}
use token_control.Policy.Quota.Limits.{Tighter}
use token_control.Policy.Selector.{selector_matches, workload_matches}
use token_control.Policy.Tier.Verdicts.{Forbids}
use token_control.Policy.Effective.Permission.{
  permit-allowed_iff, MostSpecificGrant, permit-credential,
}
use token_control.Policy.Effective.Folded.{SameVerdict, permit-fold}
use token_control.Policy.Effective.Models.{OtherModel, Reports, names, effective_models-Reports}
use token_control.Policy.Tier.{model_matches, norm_action, first_match, eval_tier}
use token_control.Policy.Effective.{Effective, permit, effective_models}
use token_control.Policy.Apply.{apply_cluster, apply_namespace_tier, apply_each, sort_by_priority}
use token_control.Policy.Resolve.{
  ResolveInput, ResolveError, resolve, apply_all, assemble, select_cluster, select_namespace,
  classify,
}
use token_control.Policy.Resolve.Narrowing.{
  namespace_scope, cluster_scope, permit-workload_narrows, permit-namespace_narrows,
}
use token_control.Policy.Resolve.Budget.{ClusterApplies, NamespaceApplies, resolve-Tighter}
use token_control.Policy.Resolve.Order.{resolve-perm}
use token_control.Policy.Resolve.Sources.{Before, ClusterSource, PolicySource, resolve-sources}
use token_control.Policy.Samples.{
  equality_selectors, batch_input, openai, mistral, team_default, batch_only, per_minute,
}

glob_test : glob_match (codes " GPT-4o-[a-m]* ") (codes "gpt-4o-mini") ≡ true
unfolding glob_match
glob_test = refl

-- `resolve` with all that it calls.
run : ResolveInput → Result ResolveError Effective
unfolding resolve select_cluster selector_matches select_namespace classify workload_matches
    is_empty equality_selectors
run = resolve equality_selectors

-- What the input resolves to, before it is put together.
abbrev batch_decision : Effective
batch_decision =
    assemble (openai ∷ mistral ∷ [])
      (record { ns_defaults = team_default ∷ []; wl_matched = batch_only ∷ [] })

batch_resolves : resolve equality_selectors batch_input ≡ ok batch_decision
unfolding run
batch_resolves = refl

batch_permits : (permit batch_decision (codes "openai") (codes "gpt-4o")).allowed ≡ true
unfolding assemble apply_all apply_each apply_cluster apply_namespace_tier sort_by_priority sort
    permit eval_tier first_match model_matches norm_action glob_match before
batch_permits = refl

batch_credential :
    (permit batch_decision (codes "openai") (codes "gpt-4o")).credential ≡ codes "key"
unfolding assemble apply_all apply_each apply_cluster apply_namespace_tier sort_by_priority sort
    permit eval_tier first_match model_matches norm_action glob_match before
batch_credential = refl

batch_quota : batch_decision.quota ≡ some (per_minute (pos 50))
unfolding assemble apply_all apply_each apply_cluster apply_namespace_tier sort_by_priority sort
    before min_quota
batch_quota = refl

permit-workload_narrows_example :
    (e : Effective) × (resolve equality_selectors (namespace_scope batch_input) ≡ ok e)
    × ((permit e (codes "openai") (codes "gpt-4o")).allowed ≡ true)
permit-workload_narrows_example =
    permit-workload_narrows equality_selectors batch_input (codes "openai") (codes "gpt-4o")
      batch_decision batch_resolves batch_permits

permit-namespace_narrows_example :
    (e : Effective) × (resolve equality_selectors (cluster_scope batch_input) ≡ ok e)
    × ((permit e (codes "openai") (codes "gpt-4o")).allowed ≡ true)
permit-namespace_narrows_example =
    permit-namespace_narrows equality_selectors batch_input (codes "openai") (codes "gpt-4o")
      batch_decision batch_resolves batch_permits

resolve-Tighter_example : Tighter (some (per_minute (pos 40))) batch_decision.quota ↔ (
    All
      (λ p.
        ClusterApplies equality_selectors [] p → Tighter (some (per_minute (pos 40))) p.spec.quota)
      batch_input.cluster_policies
    × All
        (λ p.
          NamespaceApplies equality_selectors (some []) (codes "batch") p
          → Tighter (some (per_minute (pos 40))) p.spec.quota)
        batch_input.namespace_policies)
resolve-Tighter_example =
    resolve-Tighter equality_selectors batch_input batch_decision (some (per_minute (pos 40)))
      batch_resolves

resolve-perm_example :
    resolve equality_selectors (record batch_input {
      cluster_policies = mistral ∷ openai ∷ [];
      namespace_policies = team_default ∷ batch_only ∷ [];
    })
    ≡ ok batch_decision
resolve-perm_example =
    resolve-perm equality_selectors batch_input batch_decision (mistral ∷ openai ∷ [])
      (team_default ∷ batch_only ∷ []) (Permᴰ.swap refl refl) (Permᴰ.swap refl refl)
      ((λ e. ground (arith, e), tt), (tt, tt)) ((λ e. ground (arith, e), tt), (tt, tt))
      batch_resolves

permit-allowed_iff_example :
    ((permit batch_decision (codes "openai") (codes "gpt-4-32k")).allowed ≡ true) ↔ (
      (¬ Forbids batch_decision.cluster (codes "openai") (codes "gpt-4-32k"))
      × (¬ Forbids batch_decision.ns (codes "openai") (codes "gpt-4-32k"))
      × (¬ Forbids batch_decision.wl (codes "openai") (codes "gpt-4-32k")))
permit-allowed_iff_example = permit-allowed_iff batch_decision (codes "openai") (codes "gpt-4-32k")

permit-credential_example :
    let d = permit batch_decision (codes "openai") (codes "gpt-4o") in
    ((d.allowed ≡ false) × (d.credential ≡ []))
    ⊎ ((d.allowed ≡ true)
        × MostSpecificGrant batch_decision (codes "openai") (codes "gpt-4o") d.credential)
permit-credential_example = permit-credential batch_decision (codes "openai") (codes "gpt-4o")

effective_models-Reports_example :
    Distinct OtherModel (effective_models batch_decision)
    × ((p m : Text)
        → any (λ x. x.provider == p && x.model == m) (effective_models batch_decision) ≡ (
            any (names p m) batch_decision.cluster.rules
            || any (names p m) batch_decision.ns.rules
            || any (names p m) batch_decision.wl.rules))
    × All (Reports batch_decision) (effective_models batch_decision)
effective_models-Reports_example = effective_models-Reports batch_decision

permit-fold_example :
    SameVerdict
      (permit batch_decision (codes "OpenAI ") (codes "GPT-4o"))
      (permit batch_decision (codes "openai") (codes " gpt-4o"))
unfolding fold to_lower trim_space
permit-fold_example =
    permit-fold batch_decision (codes "OpenAI ") (codes "openai") (codes "GPT-4o") (codes " gpt-4o")
      refl refl

resolve-sources_example :
    Distinct Before batch_decision.sources
    × (All (λ s. non_empty s ≡ true) batch_decision.sources ↔ (
        All
          (λ p. ClusterApplies equality_selectors [] p → ClusterSource (λ s. non_empty s ≡ true) p)
          batch_input.cluster_policies
        × All
            (λ p.
              NamespaceApplies equality_selectors (some []) (codes "batch") p
              → PolicySource (λ s. non_empty s ≡ true) p)
            batch_input.namespace_policies))
resolve-sources_example =
    resolve-sources equality_selectors batch_input batch_decision (λ s. non_empty s ≡ true)
      batch_resolves

glob_match-Matches_example : (glob_match (codes " GPT-4*") (codes "gpt-4o") ≡ true) ↔ (
    (fold (codes " GPT-4*") ≡ codes "*")
    ⊎ ((fold (codes " GPT-4*") ≡ fold (codes "gpt-4o"))
        ⊎ ((ts : List Term) × (parse (fold (codes " GPT-4*")) ≡ some ts)
            × Matches ts (fold (codes "gpt-4o")))))
unfolding fold to_lower trim_space
glob_match-Matches_example = glob_match-Matches (codes " GPT-4*") (codes "gpt-4o") refl
