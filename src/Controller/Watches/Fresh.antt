-- ===== src/Controller/Watches/Fresh.antt =====
-- No change of the cluster leaves the result of a run stale without a request for the object.
use token_control.Common.{◌≡◌, ◌⊎◌, inl, inr, refl, ap, ◌∙◌, List, [], ◌∷◌, map, Some}
use token_control.Common.Result.{ok}
use token_control.Text.{Text}
use token_control.Api.Selector.{LabelSelectors}
use token_control.Api.Claim.{ModelClaim}
use token_control.Webhook.Cluster.{Client, namespace_labels}
use token_control.Controller.Conditions.{Conditions}
use token_control.Controller.Claim.{StoredClaim, rebind}
use token_control.Controller.Watches.{
  NamespacedName, ObjectKind, cluster_token_policy, token_policy, model_credential, model_claim,
  namespace, claim_key, claims_for_all, claim_requests,
}

-- What two states of the cluster have in common.
abbrev SameClusters : Client → Client → Type 0
SameClusters c c' = c.list_cluster_policies ≡ c'.list_cluster_policies

abbrev SamePolicies : Client → Client → Type 0
SamePolicies c c' = (ns : Text) → c.list_policies ns ≡ c'.list_policies ns

abbrev SameNamespaces : Client → Client → Type 0
SameNamespaces c c' = (name : Text) → c.get_namespace name ≡ c'.get_namespace name

-- A change of one object changes the answers on its kind only.
abbrev pub Explains : ObjectKind → Client → Client → Type 0
Explains cluster_token_policy c c' = SamePolicies c c' × SameNamespaces c c'
Explains token_policy c c' = SameClusters c c' × SameNamespaces c c'
Explains namespace c c' = SameClusters c c' × SamePolicies c c'
Explains _ c c' = SameClusters c c' × SamePolicies c c' × SameNamespaces c c'

-- A change of another object leaves the claim, with its generation and its status, as it was; a change
-- of a claim is the claim's own or leaves it as it was.
abbrev pub ExplainsClaim : ObjectKind → NamespacedName → StoredClaim → StoredClaim → Type 0
ExplainsClaim model_claim key s s' = (s ≡ s') ⊎ (key ≡ claim_key s'.claim)
ExplainsClaim _ key s s' = s ≡ s'

Some-map :
    (m : ModelClaim) (claims : List ModelClaim)
    → Some (λ x. x ≡ m) claims
    → Some (λ k. k ≡ claim_key m) (map claim_key claims)
Some-map m [] h = absurd h
Some-map m (x ∷ claims) (inl e) = inl (ap claim_key e)
Some-map m (x ∷ claims) (inr h) = inr (Some-map m claims h)

module _ (K : LabelSelectors) (D : Conditions) (c c' : Client) (s : StoredClaim) where
  namespace_labels-same :
      (n : Text)
      → c.get_namespace n ≡ c'.get_namespace n
      → namespace_labels c n ≡ namespace_labels c' n
  unfolding namespace_labels
  namespace_labels-same n h = rw (h, namespace_labels) refl

  rebind-same :
      SameClusters c c' → SamePolicies c c' → SameNamespaces c c' → rebind K D c s ≡ rebind K D c' s
  unfolding rebind
  rebind-same clusters policies names =
      rw
        (
          namespace_labels-same s.claim.namespace (names s.claim.namespace),
          policies s.claim.namespace,
          clusters,
        )
        refl

  -- When a change of one object, which may be the claim itself, leads from one state of the cluster to
  -- another, and all claims can be listed: a run on a claim of the list, as it is after the change,
  -- gives in the new state what a run on the claim as it was gave in the old one, or there is a
  -- request for the claim.
  pub claim_requests-fresh :
      (s' : StoredClaim) (kind : ObjectKind) (key : NamespacedName) (claims : List ModelClaim)
      → Explains kind c c'
      → ExplainsClaim kind key s s'
      → Some (λ m. m ≡ s'.claim) claims
      → (rebind K D c s ≡ rebind K D c' s')
        ⊎ Some
            (λ k. k ≡ claim_key s'.claim)
            (claim_requests (record { kind = kind; key = key }) (ok claims))
  unfolding claim_requests claims_for_all
  claim_requests-fresh s' cluster_token_policy key claims h e m = inr (Some-map s'.claim claims m)
  claim_requests-fresh s' token_policy key claims h e m = inr (Some-map s'.claim claims m)
  claim_requests-fresh s' model_credential key claims h e m = inr (Some-map s'.claim claims m)
  claim_requests-fresh s' namespace key claims h e m = inr (Some-map s'.claim claims m)
  claim_requests-fresh s' model_claim key claims (a, b, d) (inl same) m =
      inl (rebind-same a b d ∙ ap (rebind K D c') same)
  claim_requests-fresh s' model_claim key claims h (inr own) m = inr (inl own)
