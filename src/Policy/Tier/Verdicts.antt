-- ===== src/Policy/Tier/Verdicts.antt =====
-- What `evalTier` decides, by the rules of the tier.
use token_control.Common.{
  ◌≡◌, refl, ◌↔◌, ◌⊎◌, inl, inr, Bool, true, false, ◌&&◌, List, [], ◌∷◌, none, some, arith, any,
  All, Some, Bool-cases, Option-cases,
}
use token_control.Text.{Text}
use token_control.Policy.Tier.{
  abstain, deny, SourcedRule, Tier, model_matches, allows, denies, first_match, eval_tier,
  eval_rules,
}

-- A rule of a kind, Allow or Deny, that matches the model.
abbrev pub Hits : (SourcedRule → Bool) → Text → Text → SourcedRule → Type 0
Hits kind provider model r = (kind r ≡ true) × (model_matches r.rule provider model ≡ true)

abbrev pub NoHit : (SourcedRule → Bool) → Text → Text → SourcedRule → Type 0
NoHit kind provider model r = (kind r && model_matches r.rule provider model) ≡ false

module _ (kind : SourcedRule → Bool) (provider model : Text) where
  first_match-some :
      (rs : List SourcedRule) (r : SourcedRule)
      → first_match kind provider model rs ≡ some r
      → Some (Hits kind provider model) rs
  unfolding first_match
  first_match-some [] r h = absurd (ground arith)
  first_match-some (s ∷ rs) r h =
      elim (Bool-cases (kind s && model_matches s.rule provider model)) [
        | inl e ↦ inl (ground arith)
        | inr e ↦ inr (first_match-some rs r (rw e at h))
      ]

  pub first_match-none :
      (rs : List SourcedRule)
      → first_match kind provider model rs ≡ none
      → All (NoHit kind provider model) rs
  unfolding first_match
  first_match-none [] h = tt
  first_match-none (s ∷ rs) h = ground (arith, first_match-none rs)

  first_match-none_of_All :
      (rs : List SourcedRule)
      → All (NoHit kind provider model) rs
      → first_match kind provider model rs ≡ none
  unfolding first_match
  first_match-none_of_All [] h = refl
  first_match-none_of_All (s ∷ rs) (p, h) = rw p (first_match-none_of_All rs h)

  not-Some_of_All :
      (rs : List SourcedRule)
      → All (NoHit kind provider model) rs
      → Some (Hits kind provider model) rs
      → ⊥
  not-Some_of_All [] h s = s
  not-Some_of_All (r ∷ rs) (p, h) (inl e) = ground arith
  not-Some_of_All (r ∷ rs) (p, h) (inr s) = not-Some_of_All rs h s

-- The tier forbids the model: a Deny rule matches, or there are Allow rules and none matches.
abbrev pub Forbids : Tier → Text → Text → Type 0
Forbids t provider model =
    Some (Hits denies provider model) t.rules
    ⊎ ((any allows t.rules ≡ true) × All (NoHit allows provider model) t.rules)

module _ (t : Tier) (provider model : Text) where
  -- An empty tier has no rule to hit.
  eval_rules-deny : Forbids t provider model → (eval_rules t provider model).decision ≡ deny
  unfolding eval_rules
  eval_rules-deny (inl s) = elim (Option-cases (first_match denies provider model t.rules)) [
    | inl e ↦ absurd (
        not-Some_of_All denies provider model t.rules
          (first_match-none denies provider model t.rules e) s)
    | inr (r, e) ↦ rw (e, eval_rules)
  ]
  eval_rules-deny (inr (a, n)) =
      ground (arith, first_match-none_of_All allows provider model t.rules n)

  deny-eval_rules : (eval_rules t provider model).decision ≡ deny → Forbids t provider model
  unfolding eval_rules
  deny-eval_rules h = elim (Option-cases (first_match denies provider model t.rules)) [
    | inr (r, e) ↦ inl (first_match-some denies provider model t.rules r e)
    | inl e ↦ elim (Option-cases (first_match allows provider model t.rules)) [
      | inr (s, f) ↦ absurd (ground arith)
      | inl f ↦ inr (ground arith, first_match-none allows provider model t.rules f)
    ]
  ]

abbrev tier_of : Text → List SourcedRule → Tier
tier_of name rules = record { name = name; rules = rules }

deny_iff :
    (name : Text) (rules : List SourcedRule) (provider model : Text)
    → ((eval_tier (tier_of name rules) provider model).decision ≡ deny)
      ↔ Forbids (tier_of name rules) provider model
unfolding eval_tier
deny_iff name [] provider model = (λ h. cc, λ h. elim h [ inl s ↦ absurd s | inr a ↦ cc (a.0) ])
deny_iff name (r ∷ rs) provider model = (
  deny-eval_rules (tier_of name (r ∷ rs)) provider model,
  eval_rules-deny (tier_of name (r ∷ rs)) provider model,
)

-- The tier denies a model exactly when a Deny rule of it matches, or it has an Allow rule and none of
-- its Allow rules matches.
pub eval_tier-deny_iff :
    (t : Tier) (provider model : Text)
    → ((eval_tier t provider model).decision ≡ deny) ↔ Forbids t provider model
eval_tier-deny_iff t provider model = deny_iff t.name t.rules provider model

abstain_iff :
    (name : Text) (rules : List SourcedRule) (provider model : Text)
    → ((eval_tier (tier_of name rules) provider model).decision ≡ abstain) ↔ (rules ≡ [])
unfolding eval_tier eval_rules
abstain_iff name [] provider model = ground arith
abstain_iff name (r ∷ rs) provider model = ground arith

-- It abstains exactly when it has no rules.
eval_tier-abstain_iff :
    (t : Tier) (provider model : Text)
    → ((eval_tier t provider model).decision ≡ abstain) ↔ (t.rules ≡ [])
eval_tier-abstain_iff t provider model = abstain_iff t.name t.rules provider model
