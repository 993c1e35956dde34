-- ===== src/Policy/Effective.antt =====
-- The resolved decision for a scope: `Effective`, `Permit`, `denyReason` and `EffectiveModels`.
pub mod Permission
pub mod Models
pub mod Folded
use token_control.Common.{
  Bool, true, false, not, ◌&&◌, List, [], ◌∷◌, ◌++◌, map, Option, any, if◌then◌else◌,
}
use token_control.Text.{Text, ◌==◌, codes, to_lower, has_suffix, non_empty}
use token_control.Api.{
  EnforcementMode, TokenQuota, PermissionAction, GatewayIntegration, EffectiveModel,
}
use token_control.Policy.Tier.{
  Decision, abstain, allow, deny, SourcedRule, Tier, Verdict, eval_tier, allows,
}

pub record Effective : Type 0 where
  pub governed : Bool
  pub model_governed : Bool
  pub enforcement : EnforcementMode
  pub quota : Option TokenQuota
  pub gateway : Option GatewayIntegration
  pub default_credential : Text
  pub sources : List Text
  pub cluster : Tier
  pub ns : Tier
  pub wl : Tier

pub record ModelDecision : Type 0 where
  pub provider : Text
  pub model : Text
  pub allowed : Bool
  pub credential : Text
  pub denied_by : Text
  pub reason : Text

abbrev pub is_denied : Decision → Bool
is_denied deny = true
is_denied _ = false

abbrev pub is_allowed : Decision → Bool
is_allowed allow = true
is_allowed _ = false

abbrev pub is_abstained : Decision → Bool
is_abstained abstain = true
is_abstained _ = false

unfoldable pub deny_reason : Text → Text → Text → Text → Text
deny_reason level source provider model =
    if has_suffix source (codes "allowlist")
    then provider
      ++ (codes "/" ++ (model ++ (codes " is not on the " ++ (level ++ codes " allowlist"))))
    else provider
      ++ (codes "/"
          ++ (model
              ++ (codes " is denied by " ++ (level ++ (codes " (" ++ (source ++ codes ")"))))))

-- The returns of `Permit` for a tier that denies.
unfoldable pub refusal : Text → Verdict → Text → Text → ModelDecision
refusal level v provider model = record {
  provider = provider;
  model = model;
  allowed = false;
  credential = [];
  denied_by = v.source;
  reason = deny_reason level v.source provider model;
}

abbrev pub names_credential : Verdict → Bool
names_credential v = is_allowed v.decision && non_empty v.credential

-- The switch that picks the credential.
unfoldable pub pick_credential : Verdict → Verdict → Verdict → Text → Text
pick_credential c n w default =
    if names_credential w
    then w.credential
    else if names_credential n
    then n.credential
    else if names_credential c
    then c.credential
    else default

unfoldable pub permission : Verdict → Verdict → Verdict → Text → Text → Text → ModelDecision
unfolding pick_credential
permission c n w default provider model = record {
  provider = provider;
  model = model;
  allowed = true;
  credential = pick_credential c n w default;
  denied_by = [];
  reason =
      if is_abstained c.decision && (is_abstained n.decision && is_abstained w.decision)
      then codes "no model allowlist configured for scope"
      else codes "permitted by policy";
}

-- `Permit`, from the verdicts of the cluster, namespace and workload tiers.
unfoldable pub combine : Verdict → Verdict → Verdict → Text → Text → Text → ModelDecision
unfolding refusal permission
combine c n w default provider model =
    if is_denied w.decision
    then refusal (codes "workload") w provider model
    else if is_denied n.decision
    then refusal (codes "namespace") n provider model
    else if is_denied c.decision
    then refusal (codes "cluster") c provider model
    else permission c n w default provider model

unfoldable pub permit : Effective → Text → Text → ModelDecision
unfolding combine
permit e provider model =
    combine (eval_tier e.cluster provider model) (eval_tier e.ns provider model)
      (eval_tier e.wl provider model) e.default_credential provider model

-- A key of `EffectiveModels` with the source of its first Allow.
pub record Entry : Type 0 where
  pub provider : Text
  pub model : Text
  pub source : Text

abbrev pub entry_of : SourcedRule → Entry
entry_of r = record {
  provider = to_lower r.rule.provider;
  model = to_lower r.rule.model;
  source = r.source;
}

abbrev pub same_key : Entry → Entry → Bool
same_key a b = a.provider == b.provider && a.model == b.model

-- The closure `collect`, over the rules of all tiers in turn: `seen` and `order` are one list.
unfoldable pub collect : List Entry → List SourcedRule → List Entry
unfolding ◌==◌
collect order [] = order
collect order (r ∷ rs) =
    collect
      (if allows r && not (any (same_key (entry_of r)) order)
        then order ++ (entry_of r ∷ [])
        else order)
      rs

abbrev pub action_of : Bool → PermissionAction
action_of true = PermissionAction.allow
action_of false = PermissionAction.deny

unfoldable pub effective_model : Effective → Entry → EffectiveModel
effective_model e k =
    let d = permit e k.provider k.model in
    record {
      provider = k.provider;
      model = k.model;
      action = action_of d.allowed;
      credential = d.credential;
      source = k.source;
    }

unfoldable pub effective_models : Effective → List EffectiveModel
unfolding collect effective_model
effective_models e =
    map (effective_model e) (collect (collect (collect [] e.cluster.rules) e.ns.rules) e.wl.rules)
