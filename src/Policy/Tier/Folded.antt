-- ===== src/Policy/Tier/Folded.antt =====
-- A tier reads the names of a provider and of a model up to letter case and outer space.
use token_control.Common.{◌≡◌, refl, Bool, List, [], ◌∷◌}
use token_control.Text.{Text}
use token_control.Api.{ModelPermission}
use token_control.Policy.Glob.{fold, glob_match}
use token_control.Policy.Tier.{
  Tier, SourcedRule, model_matches, first_match, eval_tier, eval_rules, allows, denies,
}

glob_match-fold :
    (pattern v w : Text) → fold v ≡ fold w → glob_match pattern v ≡ glob_match pattern w
unfolding glob_match
glob_match-fold pattern v w e = rw e refl

-- Two names of one provider, and two of one model.
module _ (p q m n : Text) (provider : fold p ≡ fold q) (model : fold m ≡ fold n) where
  model_matches-fold : (r : ModelPermission) → model_matches r p m ≡ model_matches r q n
  unfolding model_matches
  model_matches-fold r =
      rw (glob_match-fold r.provider p q provider, glob_match-fold r.model m n model) refl

  first_match-fold :
      (kind : SourcedRule → Bool) (rs : List SourcedRule)
      → first_match kind p m rs ≡ first_match kind q n rs
  unfolding first_match
  first_match-fold kind [] = refl
  first_match-fold kind (r ∷ rs) = rw (model_matches-fold r.rule, first_match-fold kind rs) refl

  eval_rules-fold : (t : Tier) → eval_rules t p m ≡ eval_rules t q n
  unfolding eval_rules
  eval_rules-fold t = cc (first_match-fold denies t.rules, first_match-fold allows t.rules)

  pub eval_tier-fold : (t : Tier) → eval_tier t p m ≡ eval_tier t q n
  unfolding eval_tier
  eval_tier-fold t = rw (eval_rules-fold t) refl
