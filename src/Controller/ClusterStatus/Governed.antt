-- ===== src/Controller/ClusterStatus/Governed.antt =====
-- The namespaces that the status of a cluster policy lists are those where the resolver applies it.
use token_control.Common.{
  ◌≡◌, ◌↔◌, ◌∙◌, inl, inr, refl, sym, ap, Bool, true, false, ◌&&◌, ◌||◌, List, [], ◌∷◌, Option,
  some, any, All, arith, if◌then◌else◌, Bool-cases,
}
use token_control.Common.Sort.{sort, any-sort}
use token_control.Common.Result.{Result, ok, err, >>=-returns, Result-cases}
use token_control.Text.{Text, ◌==◌, before}
use token_control.Text.Laws.{eq_iff}
use token_control.Api.Selector.{Labels, LabelSelector, LabelSelectors}
use token_control.Api.Policies.{ClusterTokenPolicy, ClusterTokenPolicyStatus}
use token_control.Policy.Selector.{selector_matches}
use token_control.Policy.Resolve.{select_cluster}
use token_control.Webhook.Cluster.{found, Client}
use token_control.Controller.Conditions.{Conditions}
use token_control.Controller.Replication.Agreement.{has}
use token_control.Controller.ClusterStatus.{
  StoredClusterPolicy, matched_namespaces, applied_status, cluster_status, reconcile_cluster_policy,
}

matches_or_not : Result Text Bool → Bool
matches_or_not (ok b) = b
matches_or_not (err e) = false

has-if :
    (n m : Text) (b : Bool) (rest : List Text)
    → has n (if b then m ∷ rest else rest) ≡ ((b && m == n) || has n rest)
has-if n m true rest = refl
has-if n m false rest = refl

module _ (K : LabelSelectors) (sel : Option LabelSelector) (c : Client) (n : Text) (l : Labels)
    (here : c.get_namespace n ≡ found l) where
  same_labels : (x : Text × Labels) → c.get_namespace x.0 ≡ found x.1 → (x.0 == n) ≡ true → x.1 ≡ l
  same_labels x e h =
      let name : x.0 ≡ n = (eq_iff x.0 n).0 h in
      let both : found x.1 ≡ found l = rw (← e, name) here in ground arith

  same_answer :
      (x : Text × Labels) (b : Bool)
      → selector_matches K sel x.1 ≡ ok b
      → x.1 ≡ l
      → b ≡ matches_or_not (selector_matches K sel l)
  unfolding matches_or_not
  same_answer x b h e =
      let there : selector_matches K sel l ≡ ok b = ap (selector_matches K sel) (sym e) ∙ h in
      rw there refl

  has-matched_namespaces :
      (ns : List (Text × Labels)) (m : List Text)
      → matched_namespaces K sel ns ≡ ok m
      → All (λ x. c.get_namespace x.0 ≡ found x.1) ns
      → has n m ≡ (any (λ x. x.0 == n) ns && matches_or_not (selector_matches K sel l))
  unfolding matched_namespaces
  has-matched_namespaces [] m h k = let same : [] ≡ m = ground arith in rw (← same) refl
  has-matched_namespaces (x ∷ ns) m h (e, k) =
      let (b, hb, later) = >>=-returns (selector_matches K sel x.1) _ h in
      let (rest, hr, made) = >>=-returns (matched_namespaces K sel ns) _ later in
      let same : (if b then x.0 ∷ rest else rest) ≡ m = ground arith in
      let step = ap (has n) (sym same) ∙ has-if n x.0 b rest in
      let tail = has-matched_namespaces ns rest hr k in
      elim (Bool-cases (x.0 == n)) [
        | inr f ↦ step ∙ rw (f, tail) (ground arith)
        | inl f ↦ step ∙ rw (f, tail, same_answer x b hb (same_labels x e f)) (ground arith)
      ]

select_cluster-one :
    (K : LabelSelectors) (l : Labels) (p : ClusterTokenPolicy)
    → (matches_or_not (selector_matches K p.spec.namespace_selector l) ≡ true)
      ↔ (select_cluster K l (p ∷ []) ≡ ok (p ∷ []))
unfolding matches_or_not select_cluster
select_cluster-one K l p = elim (Result-cases (selector_matches K p.spec.namespace_selector l)) [
  | inl (true, e) ↦ rw (e, select_cluster) (λ _. refl, λ _. refl)
  | inl (false, e) ↦ rw (e, select_cluster) (λ h. absurd (ground arith), λ h. absurd (ground arith))
  | inr (x, e) ↦ rw (e, select_cluster) (λ h. absurd (ground arith), λ h. absurd (ground arith))
]

-- Where the namespaces are listed with the labels that a Get of each returns, and the selector of a
-- cluster policy can be read for them: the run writes a status, which lists a namespace of the list
-- exactly where the resolver, for the labels of the namespace, selects the policy.
pub reconcile_cluster_policy-selects :
    (K : LabelSelectors) (D : Conditions) (c : Client) (s : StoredClusterPolicy)
    (namespaces : List (Text × Labels)) (m : List Text) (n : Text) (l : Labels)
    → c.list_namespaces ≡ ok namespaces
    → All (λ x. c.get_namespace x.0 ≡ found x.1) namespaces
    → matched_namespaces K s.policy.spec.namespace_selector namespaces ≡ ok m
    → any (λ x. x.0 == n) namespaces ≡ true
    → c.get_namespace n ≡ found l
    → (st : ClusterTokenPolicyStatus) × (reconcile_cluster_policy K D c (found s) ≡ ok (some st))
      × ((any (λ k. k == n) st.applied_namespaces ≡ true)
          ↔ (select_cluster K l (s.policy ∷ []) ≡ ok (s.policy ∷ [])))
unfolding reconcile_cluster_policy cluster_status applied_status
reconcile_cluster_policy-selects K D c s namespaces m n l listing consistent matched listed here =
    let sel = s.policy.spec.namespace_selector in
    let shown : has n (sort before m) ≡ matches_or_not (selector_matches K sel l) =
      any-sort before (λ k. k == n) m
      ∙ (has-matched_namespaces K sel c n l here namespaces m matched consistent
          ∙ rw listed refl) in
    (
      applied_status K D s m,
      rw (listing, matched, cluster_status) refl,
      rw shown (select_cluster-one K l s.policy),
    )
