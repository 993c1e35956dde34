-- ===== src/Policy/Tier/Credentials.antt =====
-- Which credential a tier names for a model.
use token_control.Common.{
  any, ◌≡◌, ◌≢◌, ◌⊎◌, inl, inr, refl, ap, subst, true, false, ◌&&◌, List, [], ◌∷◌, ◌++◌, some,
  arith, All, Bool-cases, Option-cases,
}
use token_control.Text.{Text, non_empty}
use token_control.Policy.Tier.{
  allow, deny, SourcedRule, Tier, Verdict, eval_tier, allows, denies, first_match, model_matches,
  credential_name,
}
use token_control.Policy.Tier.Verdicts.{Hits, NoHit, first_match-none}

-- The first Allow rule that matches the model names the credential, or none where it is empty.
abbrev pub FirstNames : Text → Text → Text → List SourcedRule → Type 0
FirstNames provider model credential rules =
    (before : List SourcedRule) × (r : SourcedRule) × (after : List SourcedRule) × (rules
      ≡ before ++ r ∷ after)
    × All (NoHit allows provider model) before
    × Hits allows provider model r
    × (credential_name r.rule.credential_ref ≡ credential)

-- The tier grants the credential: the first Allow rule that matches names it.
abbrev pub Grants : Tier → Text → Text → Text → Type 0
Grants t provider model credential =
    (non_empty credential ≡ true) × FirstNames provider model credential t.rules

-- The tier grants none: no Allow rule matches, or the first that does names no credential.
abbrev pub GrantsNone : Tier → Text → Text → Type 0
GrantsNone t provider model =
    All (NoHit allows provider model) t.rules ⊎ FirstNames provider model [] t.rules

module _ (provider model : Text) where
  first_match-FirstNames :
      (rs : List SourcedRule) (r : SourcedRule)
      → first_match allows provider model rs ≡ some r
      → FirstNames provider model (credential_name r.rule.credential_ref) rs
  unfolding first_match
  first_match-FirstNames [] r h = absurd (ground arith)
  first_match-FirstNames (s ∷ rs) r h =
      elim (Bool-cases (allows s && model_matches s.rule provider model)) [
        | inl e ↦ ([], s, rs, refl, tt, (ground arith, ground arith), ground arith)
        | inr e ↦
            let (before, q, after, split, missed, hits, named) =
              first_match-FirstNames rs r (rw e at h) in
            (s ∷ before, q, after, ap (λ l. s ∷ l) split, (e, missed), hits, named)
      ]

  -- What a verdict says of the credential.
  abbrev pub Credits : Tier → Verdict → Type 0
  Credits t v =
      (v.decision ≡ deny)
      ⊎ (((v.decision ≡ allow) × Grants t provider model v.credential)
          ⊎ ((v.decision ≢ deny) × (non_empty v.credential ≡ false) × GrantsNone t provider model))

  empty_text : (s : Text) → non_empty s ≡ false → s ≡ []
  empty_text [] h = refl
  empty_text (c ∷ s) h = absurd (ground arith)

  rules-Credits :
      (name : Text) (rules : List SourcedRule)
      → let t : Tier = record { name = name; rules = rules } in
        Credits t (eval_tier t provider model)
  unfolding eval_tier
  rules-Credits name [] = inr (inr (λ d. cc, refl, inl tt))
  rules-Credits name (q ∷ rs) = elim (Option-cases (first_match denies provider model (q ∷ rs))) [
    | inr (d, e) ↦ inl (ground arith)
    | inl e ↦ elim (Option-cases (first_match allows provider model (q ∷ rs))) [
      | inl f ↦ elim (Bool-cases (any allows (q ∷ rs))) [
        | inl k ↦ inl (ground arith)
        | inr k ↦ inr (
            inr (
              λ d. ground arith,
              ground arith,
              inl (first_match-none allows provider model (q ∷ rs) f),
            ))
      ]
      | inr (r, f) ↦
          let named = first_match-FirstNames (q ∷ rs) r f in
          let given : Text = credential_name r.rule.credential_ref in
          let same : (eval_tier (record { name = name; rules = q ∷ rs }) provider model).credential
              ≡ given =
            ground arith in
          elim (Bool-cases (non_empty given)) [
            | inl n ↦ inr (inl (ground arith, rw same (n, named)))
            | inr n ↦ inr (
                inr (
                  λ d. ground arith,
                  rw same n,
                  inr (
                      subst (λ c. FirstNames provider model c (q ∷ rs)) (empty_text given n) named),
                ))
          ]
    ]
  ]

  pub eval_tier-Credits : (t : Tier) → Credits t (eval_tier t provider model)
  eval_tier-Credits t = rules-Credits t.name t.rules
