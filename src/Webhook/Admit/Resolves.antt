-- ===== src/Webhook/Admit/Resolves.antt =====
-- What the accepted policies guarantee to the resolver.
use token_control.Common.{
  ◌≡◌, inl, inr, refl, true, false, List, [], ◌∷◌, Option, none, some, All, if◌then◌else◌,
  Bool-cases,
}
use token_control.Common.Result.{Result, ok}
use token_control.Common.Sort.{All-imp}
use token_control.Text.{Text}
use token_control.Api.Selector.{Labels, LabelSelector, LabelSelectors, WorkloadSelector, is_empty}
use token_control.Api.Policies.{ClusterTokenPolicy, TokenPolicy}
use token_control.Policy.Apply.{namespace, workload}
use token_control.Policy.Selector.{selector_matches, workload_matches, account_matches}
use token_control.Policy.Resolve.{
  ResolveInput, select_cluster, classify, select_namespace, assemble, add_selected, resolve,
  labels_of, no_identity,
}
use token_control.Policy.Resolve.Selection.{resolve-of_selected}
use token_control.Webhook.Cluster.{Client}
use token_control.Webhook.Admit.{
  bad_namespace_selector, selector_problems, cluster_policy_problems, validate_token_policy,
  validate_cluster_policy,
}
use token_control.Webhook.Admit.Accepted.{
  Accepted, Parses, WorkloadParses, is_nil-append, selector_problems-Parses, unless_problems-is_nil,
  validate_token_policy-Accepted,
}

abbrev pub Returns : {E A : Type 0} → Result E A → Type 0
Returns {E} {A} r = (a : A) × (r ≡ ok a)

module _ (K : LabelSelectors) (c : Client) where
  selector_matches-Returns :
      (s : Option LabelSelector) (labels : Labels)
      → Parses K s
      → Returns (selector_matches K s labels)
  unfolding selector_matches
  selector_matches-Returns none labels h = (true, refl)
  selector_matches-Returns (some s) labels (f, e) = (f labels, rw e refl)

  select_cluster-Returns :
      (labels : Labels) (ps : List ClusterTokenPolicy)
      → All (λ p. Parses K p.spec.namespace_selector) ps
      → Returns (select_cluster K labels ps)
  unfolding select_cluster
  select_cluster-Returns labels [] h = ([], refl)
  select_cluster-Returns labels (p ∷ ps) (s, h) =
      let (match, e) = selector_matches-Returns p.spec.namespace_selector labels s in
      let (rest, f) = select_cluster-Returns labels ps h in
      (if match then p ∷ rest else rest, rw (e, f) refl)

  workload_matches-Returns :
      (s : Option WorkloadSelector) (labels : Labels) (sa : Text)
      → WorkloadParses K s
      → Returns (workload_matches K s labels sa)
  unfolding workload_matches
  workload_matches-Returns none labels sa h = (true, refl)
  workload_matches-Returns (some w) labels sa h =
      let (match, e) = selector_matches-Returns w.pod_selector labels h in
      elim (Bool-cases (account_matches K w.service_accounts sa)) [
        | inl a ↦ (match, rw a e)
        | inr a ↦ (false, rw a refl)
      ]

  classify-Returns :
      (labels : Option Labels) (sa : Text) (p : TokenPolicy)
      → WorkloadParses K p.spec.selector
      → Returns (classify K labels sa p)
  unfolding classify
  classify-Returns labels sa p h =
      let (match, e) = workload_matches-Returns p.spec.selector (labels_of labels) sa h in
      elim (Bool-cases (is_empty p.spec.selector)) [
        | inl a ↦ (some namespace, rw a refl)
        | inr a ↦ elim (Bool-cases (no_identity labels sa)) [
          | inl b ↦ (none, rw (a, b) refl)
          | inr b ↦ (if match then some workload else none, rw (a, b, e) refl)
        ]
      ]

  select_namespace-Returns :
      (labels : Option Labels) (sa : Text) (ps : List TokenPolicy)
      → All (λ p. WorkloadParses K p.spec.selector) ps
      → Returns (select_namespace K labels sa ps)
  unfolding select_namespace
  select_namespace-Returns labels sa [] h = (record { ns_defaults = []; wl_matched = [] }, refl)
  select_namespace-Returns labels sa (p ∷ ps) (s, h) =
      let (level, e) = classify-Returns labels sa p s in
      let (rest, f) = select_namespace-Returns labels sa ps h in
      (add_selected level p rest, rw (e, f) refl)

  pub cluster-Parses :
      (p : ClusterTokenPolicy)
      → Accepted (validate_cluster_policy K c p)
      → Parses K p.spec.namespace_selector
  unfolding validate_cluster_policy cluster_policy_problems
  cluster-Parses p h =
      (selector_problems-Parses K c bad_namespace_selector p.spec.namespace_selector).0
        ((is_nil-append (selector_problems K bad_namespace_selector p.spec.namespace_selector) _).0
          ((unless_problems-is_nil K c _ _).0 h)).0

  pub policy-Parses :
      (p : TokenPolicy) → Accepted (validate_token_policy K c p) → WorkloadParses K p.spec.selector
  policy-Parses p h = ((validate_token_policy-Accepted K c p).0 h).0

  -- The policies resolve for every workload, where their selectors can be read.
  pub resolve-Parses :
      (i : ResolveInput)
      → All (λ p. Parses K p.spec.namespace_selector) i.cluster_policies
      → All (λ p. WorkloadParses K p.spec.selector) i.namespace_policies
      → Returns (resolve K i)
  resolve-Parses i hc hp =
      let (clusters, e) = select_cluster-Returns i.namespace_labels i.cluster_policies hc in
      let (sel, f) =
        select_namespace-Returns i.pod_labels i.service_account i.namespace_policies hp in
      (assemble clusters sel, resolve-of_selected K i e f)

  -- Where the webhooks accept every cluster policy and every policy of the namespace, the policies
  -- resolve for every workload of the namespace.
  resolve-Accepted :
      (i : ResolveInput)
      → All (λ p. Accepted (validate_cluster_policy K c p)) i.cluster_policies
      → All (λ p. Accepted (validate_token_policy K c p)) i.namespace_policies
      → Returns (resolve K i)
  resolve-Accepted i hc hp =
      resolve-Parses i (All-imp _ _ cluster-Parses i.cluster_policies hc)
        (All-imp _ _ policy-Parses i.namespace_policies hp)
