-- ===== src/Policy/Tier.antt =====
-- One tier of the hierarchy: `evalTier` and what it calls.
pub mod Verdicts
pub mod Credentials
pub mod Folded
use token_control.Common.{Bool, ◌&&◌, List, [], ◌∷◌, ◌++◌, Option, none, some, any, if◌then◌else◌}
use token_control.Text.{Text, codes}
use token_control.Api.{PermissionAction, ModelPermission, CredentialReference, is_allow, is_deny}
use token_control.Policy.Glob.{glob_match}

pub data Decision : Type 0 where
  abstain allow deny : Decision

pub record SourcedRule : Type 0 where
  pub rule : ModelPermission
  pub source : Text

pub record Tier : Type 0 where
  pub name : Text
  pub rules : List SourcedRule

unfoldable pub norm_action : PermissionAction → PermissionAction
norm_action PermissionAction.unset = PermissionAction.allow
norm_action a = a

unfoldable pub model_matches : ModelPermission → Text → Text → Bool
model_matches r provider model = glob_match r.provider provider && glob_match r.model model

abbrev pub allows : SourcedRule → Bool
allows r = is_allow (norm_action r.rule.action)

abbrev pub denies : SourcedRule → Bool
denies r = is_deny (norm_action r.rule.action)

-- The loops that return at the first rule of a kind that matches.
unfoldable pub first_match :
    (SourcedRule → Bool) → Text → Text → List SourcedRule → Option SourcedRule
first_match kind provider model [] = none
first_match kind provider model (r ∷ rs) =
    if kind r && model_matches r.rule provider model
    then some r
    else first_match kind provider model rs

abbrev pub credential_name : Option CredentialReference → Text
credential_name none = []
credential_name (some c) = c.name

-- The decision, with the credential and the source of the rule that took it.
pub record Verdict : Type 0 where
  pub decision : Decision
  pub credential : Text
  pub source : Text

-- What is left when no rule of the tier matches.
abbrev pub unmatched : Tier → Verdict
unmatched t =
    if any allows t.rules
    then record { decision = Decision.deny; credential = []; source = t.name ++ codes " allowlist" }
    else record { decision = Decision.allow; credential = []; source = [] }

abbrev pub granted : SourcedRule → Verdict
granted r = record {
  decision = Decision.allow;
  credential = credential_name r.rule.credential_ref;
  source = r.source;
}

abbrev pub refused : SourcedRule → Verdict
refused r = record { decision = Decision.deny; credential = []; source = r.source }

eval_rules : Tier → Text → Text → Verdict
eval_rules t provider model = elim (first_match denies provider model t.rules) [
  | some r ↦ refused r
  | none ↦ elim (first_match allows provider model t.rules) [
    | some r ↦ granted r
    | none ↦ unmatched t
  ]
]

abbrev no_rules : Verdict
no_rules = record { decision = Decision.abstain; credential = []; source = [] }

abbrev eval_if : List SourcedRule → Verdict → Verdict
eval_if [] v = no_rules
eval_if (r ∷ rs) v = v

unfoldable pub eval_tier : Tier → Text → Text → Verdict
unfolding eval_rules
eval_tier t provider model = eval_if t.rules (eval_rules t provider model)
