-- ===== src/Webhook/Admit/History.antt =====
-- What the webhooks guarantee over time: policies that are written only with their consent resolve, and
-- the order in which they are listed does not matter.
use mathlib.Core.List.{Permᴰ}
use token_control.Common.{◌≡◌, ◌≢◌, ◌∙◌, sym, arith, Bool, true, List, [], filterb, Option, All}
use token_control.Common.Result.{ok}
use token_control.Common.Sort.{Distinct}
use token_control.Text.{Text, ◌==◌}
use token_control.Text.Laws.{eq_iff}
use token_control.Api.Selector.{Labels, LabelSelectors}
use token_control.Api.Policies.{ClusterTokenPolicy, TokenPolicy}
use token_control.Policy.Effective.{Effective}
use token_control.Policy.Resolve.{ResolveInput, resolve}
use token_control.Policy.Resolve.Order.{OtherName, OtherPolicy, resolve-perm}
use token_control.Controller.Watches.{NamespacedName}
use token_control.Webhook.Cluster.{Client, namespace_labels, resolve_effective}
use token_control.Webhook.Admit.Accepted.{Accepted, Parses, WorkloadParses}
use token_control.Webhook.Admit.Resolves.{cluster-Parses, policy-Parses, resolve-Parses}
use token_control.Webhook.Admit.Writes.{
  Write, Write-All, Write-Distinct, All-filterb, Distinct-filterb,
}
use token_control.Webhook.Request.{AdmissionRequest, review_cluster_policy, review_token_policy}

-- The policies of the cluster.
pub record Policies : Type 0 where
  pub clusters : List ClusterTokenPolicy
  pub policies : List TokenPolicy

-- A policy is named in its namespace.
abbrev cluster_key : ClusterTokenPolicy → Text
cluster_key p = p.name

abbrev policy_key : TokenPolicy → NamespacedName
policy_key p = record { namespace = p.namespace; name = p.name }

abbrev in_namespace : Text → TokenPolicy → Bool
in_namespace namespace p = p.namespace == namespace

OtherPolicy-of_key :
    (namespace : Text) (p q : TokenPolicy)
    → in_namespace namespace p ≡ true
    → in_namespace namespace q ≡ true
    → policy_key p ≢ policy_key q
    → OtherPolicy p q
OtherPolicy-of_key namespace p q hp hq n e =
    let same : p.namespace ≡ q.namespace =
      (eq_iff p.namespace namespace).0 hp ∙ sym ((eq_iff q.namespace namespace).0 hq) in
    n (ground (arith, same, e))

module _ (K : LabelSelectors) where
  -- The webhook accepts the request, in some state of the cluster.
  abbrev ConsentsCluster : AdmissionRequest ClusterTokenPolicy → Type 0
  ConsentsCluster r = (c : Client) × Accepted (review_cluster_policy K c r)

  abbrev ConsentsPolicy : AdmissionRequest TokenPolicy → Type 0
  ConsentsPolicy r = (c : Client) × Accepted (review_token_policy K c r)

  -- The states that the cluster reaches from one without policies.
  pub data Reachable : Policies → Type 0 where
    empty : Reachable (record { clusters = []; policies = [] })
    cluster_written :
        (s : Policies) (clusters : List ClusterTokenPolicy)
        → Reachable s
        → Write cluster_key ConsentsCluster s.clusters clusters
        → Reachable (record s { clusters = clusters })
    policy_written :
        (s : Policies) (policies : List TokenPolicy)
        → Reachable s
        → Write policy_key ConsentsPolicy s.policies policies
        → Reachable (record s { policies = policies })

  -- The selectors can be read, and no two objects have one key.
  record IsValid (s : Policies) : Type 0 where
    clusters_parse : All (λ p. Parses K p.spec.namespace_selector) s.clusters
    policies_parse : All (λ p. WorkloadParses K p.spec.selector) s.policies
    clusters_named : Distinct OtherName s.clusters
    policies_named : Distinct (λ p q. policy_key p ≢ policy_key q) s.policies

  Reachable-IsValid : {s : Policies} → Reachable s → IsValid s
  unfolding review_cluster_policy review_token_policy
  Reachable-IsValid empty = record {
    clusters_parse = tt;
    policies_parse = tt;
    clusters_named = tt;
    policies_named = tt;
  }
  Reachable-IsValid (cluster_written s clusters r w) =
      let v = Reachable-IsValid r in
      record {
        clusters_parse =
            Write-All cluster_key ConsentsCluster (λ p. Parses K p.spec.namespace_selector)
              (λ x (c, h). cluster-Parses K c x h) (λ x y (c, h). cluster-Parses K c y h) w
              v.clusters_parse;
        policies_parse = v.policies_parse;
        clusters_named = Write-Distinct cluster_key ConsentsCluster w v.clusters_named;
        policies_named = v.policies_named;
      }
  Reachable-IsValid (policy_written s policies r w) =
      let v = Reachable-IsValid r in
      record {
        clusters_parse = v.clusters_parse;
        policies_parse =
            Write-All policy_key ConsentsPolicy (λ p. WorkloadParses K p.spec.selector)
              (λ x (c, h). policy-Parses K c x h) (λ x y (c, h). policy-Parses K c y h) w
              v.policies_parse;
        clusters_named = v.clusters_named;
        policies_named = Write-Distinct policy_key ConsentsPolicy w v.policies_named;
      }

  -- In every state of the policies that is reached from none by writes that the webhooks accept: the
  -- policies resolve for every workload, and wherever the pod webhook reads the labels of the
  -- namespace and lists these policies, in whatever order, its decision for the workload is that one.
  pub resolve_effective-Reachable :
      (s : Policies) (c : Client) (namespace : Text) (labels : Labels) (pod_labels : Option Labels)
      (sa : Text) (clusters : List ClusterTokenPolicy) (policies : List TokenPolicy)
      → Reachable s
      → Permᴰ s.clusters clusters
      → Permᴰ (filterb (in_namespace namespace) s.policies) policies
      → c.list_cluster_policies ≡ ok clusters
      → c.list_policies namespace ≡ ok policies
      → namespace_labels c namespace ≡ ok labels
      → (e : Effective) × (resolve K (record {
        cluster_policies = s.clusters;
        namespace_policies = filterb (in_namespace namespace) s.policies;
        namespace = namespace;
        namespace_labels = labels;
        pod_labels = pod_labels;
        service_account = sa;
      })
          ≡ ok e)
        × (resolve_effective K c namespace pod_labels sa ≡ ok e)
  unfolding resolve_effective
  resolve_effective-Reachable s c namespace labels pod_labels sa clusters policies r pc pp hc hp
        hl =
      let v = Reachable-IsValid r in
      let keep = in_namespace namespace in
      let stored : ResolveInput = record {
        cluster_policies = s.clusters;
        namespace_policies = filterb keep s.policies;
        namespace = namespace;
        namespace_labels = labels;
        pod_labels = pod_labels;
        service_account = sa;
      } in
      let (e, same) =
        resolve-Parses K c stored v.clusters_parse
          (All-filterb (λ p. WorkloadParses K p.spec.selector) keep s.policies v.policies_parse) in
      let listed =
        resolve-perm K stored e clusters policies pc pp v.clusters_named
          (Distinct-filterb _ OtherPolicy keep (OtherPolicy-of_key namespace) s.policies
            v.policies_named)
          same in
      (e, same, simp (hc, hp, hl, listed))
