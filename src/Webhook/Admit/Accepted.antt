-- ===== src/Webhook/Admit/Accepted.antt =====
-- Which policies the webhooks accept.
use token_control.Common.{
  ℕ, ◌+◌, ◌≡◌, ◌↔◌, ◌⊎◌, inl, inr, refl, Bool, true, List, [], ◌∷◌, ◌++◌, Option, none, some, All,
  is_nil, arith,
}
use token_control.Common.Result.{ok, Result-cases}
use token_control.Text.{Text, ◌==◌, to_lower}
use token_control.Api.{GatewayIntegration, ModelPermission}
use token_control.Api.Selector.{Labels, LabelSelector, LabelSelectors, WorkloadSelector}
use token_control.Api.Policies.{TokenPolicy}
use token_control.Policy.Apply.{is_set}
use token_control.Policy.Glob.{valid_glob}
use token_control.Webhook.Cluster.{Client}
use token_control.Webhook.Admit.{
  credential_warnings, hierarchy_warnings, no_gateway, Problem, Warning, bad_pod_selector,
  unless_problems, Admission, equal_fold, rule_problems, validate_model_rules, gateway_problems,
  selector_problems, workload_problems, token_policy_problems, validate_token_policy,
}

-- `equalFold` is equality of the texts in lower case.
equal_fold_lem : (a b : Text) → equal_fold a b ≡ (to_lower a == to_lower b)
unfolding equal_fold to_lower ◌==◌
equal_fold_lem [] [] = refl
equal_fold_lem [] (d ∷ b) = ground arith
equal_fold_lem (c ∷ a) [] = ground arith
equal_fold_lem (c ∷ a) (d ∷ b) = ground (arith, equal_fold_lem a b)

-- The policy is accepted: it has no structural problem.
abbrev pub Accepted : Admission → Type 0
Accepted a = is_nil a.problems ≡ true

-- The selector can be read.
abbrev pub Parses : LabelSelectors → Option LabelSelector → Type 0
Parses K none = Unit
Parses K (some s) = (f : Labels → Bool) × (K.as_selector s ≡ ok f)

abbrev pub WorkloadParses : LabelSelectors → Option WorkloadSelector → Type 0
WorkloadParses K none = Unit
WorkloadParses K (some w) = Parses K w.pod_selector

-- Both patterns of a rule are valid.
abbrev pub ValidRule : ModelPermission → Type 0
ValidRule m = (valid_glob m.provider ≡ true) × (valid_glob m.model ≡ true)

-- A gateway type other than none has a target.
abbrev pub HasTarget : Option GatewayIntegration → Type 0
HasTarget none = Unit
HasTarget (some g) = (no_gateway g.type ≡ true) ⊎ (is_set g.target_ref ≡ true)

rule_problems-ValidRule :
    (i : ℕ) (ms : List ModelPermission) → (is_nil (rule_problems i ms) ≡ true) ↔ All ValidRule ms
unfolding rule_problems
rule_problems-ValidRule i [] = ground arith
rule_problems-ValidRule i (m ∷ ms) = ground (arith, rule_problems-ValidRule (i + 1) ms)

gateway_problems-HasTarget :
    (g : Option GatewayIntegration) → (is_nil (gateway_problems g) ≡ true) ↔ HasTarget g
unfolding gateway_problems
gateway_problems-HasTarget none = ground arith
gateway_problems-HasTarget (some g) = ground arith

pub is_nil-append :
    {A : Type 0} (xs ys : List A)
    → (is_nil (xs ++ ys) ≡ true) ↔ ((is_nil xs ≡ true) × (is_nil ys ≡ true))
is_nil-append [] ys = ground arith
is_nil-append (x ∷ xs) ys = ground arith

module _ (K : LabelSelectors) (c : Client) where
  problems-Parses :
      (wrap : Text → Problem) (s : Option LabelSelector)
      → is_nil (selector_problems K wrap s) ≡ true
      → Parses K s
  unfolding selector_problems
  problems-Parses wrap none h = tt
  problems-Parses wrap (some s) h = elim (Result-cases (K.as_selector s)) [
    | inl r ↦ r
    | inr (e, k) ↦ absurd (ground arith)
  ]

  pub selector_problems-Parses :
      (wrap : Text → Problem) (s : Option LabelSelector)
      → (is_nil (selector_problems K wrap s) ≡ true) ↔ Parses K s
  unfolding selector_problems
  selector_problems-Parses wrap none = (λ h. tt, λ h. refl)
  selector_problems-Parses wrap (some s) = (problems-Parses wrap (some s), λ (f, e). ground arith)

  workload_problems-WorkloadParses :
      (s : Option WorkloadSelector) → (is_nil (workload_problems K s) ≡ true) ↔ WorkloadParses K s
  unfolding workload_problems
  workload_problems-WorkloadParses none = (λ h. tt, λ h. refl)
  workload_problems-WorkloadParses (some w) =
      selector_problems-Parses bad_pod_selector w.pod_selector

  pub unless_problems-is_nil :
      (ps : List Problem) (ws : List Warning)
      → Accepted (unless_problems K c ps ws) ↔ (is_nil ps ≡ true)
  unless_problems-is_nil [] ws = (λ h. refl, λ h. refl)
  unless_problems-is_nil (p ∷ ps) ws = (λ h. h, λ h. h)

  -- A TokenPolicy is accepted exactly when its pod selector can be read, the patterns of its rules are
  -- valid, and a gateway type other than None has a target.
  pub validate_token_policy-Accepted :
      (tp : TokenPolicy)
      → Accepted (validate_token_policy K c tp) ↔ (
          WorkloadParses K tp.spec.selector
          × All ValidRule tp.spec.models
          × HasTarget tp.spec.gateway)
  unfolding validate_token_policy token_policy_problems validate_model_rules
  validate_token_policy-Accepted tp =
      let outer =
        unless_problems-is_nil (token_policy_problems K c tp)
          (credential_warnings K c tp.spec.models ++ hierarchy_warnings K c tp) in
      let first =
        is_nil-append (workload_problems K tp.spec.selector)
          (validate_model_rules tp.spec.models ++ gateway_problems tp.spec.gateway) in
      let second =
        is_nil-append (validate_model_rules tp.spec.models) (gateway_problems tp.spec.gateway) in
      let w = workload_problems-WorkloadParses tp.spec.selector in
      let r = rule_problems-ValidRule 0 tp.spec.models in
      let g = gateway_problems-HasTarget tp.spec.gateway in
      (
        λ h.
            let (a, rest) = first.0 (outer.0 h) in
            let (b, d) = second.0 rest in (w.0 a, r.0 b, g.0 d),
        λ (a, b, d). outer.1 (first.1 (w.1 a, second.1 (r.1 b, g.1 d))),
      )
