-- ===== src/Gateway/Limits.antt =====
-- The limits that a reader of the generated objects finds in them.
use token_control.Common.{
  ℕ, ◌+◌, ◌≡◌, length, inl, inr, refl, Bool, true, false, ◌&&◌, List, [], ◌∷◌, ◌++◌, Option, none,
  some, if◌then◌else◌, Option-cases,
}
use token_control.Common.Int.{ℤ, pos}
use token_control.Common.Result.{ok}
use token_control.Text.{Text, ◌==◌, codes}
use token_control.Api.{
  TokenQuota, GatewayType, envoy_ai_gateway, kuadrant, GatewayTargetRef, GatewayIntegration,
}
use token_control.Api.Policies.{TokenPolicy}
use token_control.Controller.Capacity.{quota_or_empty, is_nil_ptr}
use token_control.Gateway.{
  Artifact, artifact_name, base_meta, envoy_rules, build_envoy, kuadrant_rates, build_kuadrant,
  artifact_for,
}
use token_control.Gateway.Selection.{artifact_for-BuiltFor}
use token_control.Gateway.Object.{Value, text, number, array, from_values, get_field, get, nested}

-- The elements of the slice behind the keys.
elements : Option Value → List Value
elements (some (array items)) = from_values items
elements _ = []

-- The number behind the keys.
numbers : Option Value → List ℤ
numbers (some (number n)) = n ∷ []
numbers _ = []

texts : Option Value → Text
texts (some (text t)) = t
texts _ = []

-- What a rule of an Envoy object counts: the requests, where it has no cost; the tokens, where its cost
-- is the metadata of the response in which the gateway reports the tokens.
pub data Counted : Type 0 where
  requests tokens : Counted

counts_of : Counted → Value → Bool
unfolding nested texts
counts_of requests rule = elim (get rule (codes "cost")) [ none ↦ true | some v ↦ false ]
counts_of tokens rule =
    let field : Text → Text =
      λ key. texts (nested rule (codes "cost" ∷ codes "response" ∷ codes "metadata" ∷ key ∷ [])) in
    field (codes "namespace") == codes "io.envoy.ai_gateway"
    && field (codes "key") == codes "llm_total_token"

-- The limits, in the unit, of the rules that count it.
rule_limits : Counted → Text → List Value → List ℤ
unfolding nested numbers texts counts_of
rule_limits counted unit [] = []
rule_limits counted unit (rule ∷ rules) =
    let rest = rule_limits counted unit rules in
    let in_unit = texts (nested rule (codes "limit" ∷ codes "unit" ∷ [])) == unit in
    if counts_of counted rule && in_unit
    then numbers (nested rule (codes "limit" ∷ codes "requests" ∷ [])) ++ rest
    else rest

-- The limits of an Envoy object on the tokens, or on the requests, in a unit.
unfoldable pub envoy_limits : Counted → Text → Value → List ℤ
unfolding rule_limits elements
envoy_limits counted unit spec =
    rule_limits counted unit
      (elements (nested spec (codes "rateLimit" ∷ codes "global" ∷ codes "rules" ∷ [])))

window_limits : Text → List Value → List ℤ
unfolding texts numbers
window_limits window [] = []
window_limits window (r ∷ rs) =
    let rest = window_limits window rs in
    if texts (get r (codes "window")) == window
    then numbers (get r (codes "limit")) ++ rest
    else rest

-- The limits of a Kuadrant object on the tokens in a window.
unfoldable pub kuadrant_limits : Text → Value → List ℤ
unfolding window_limits elements
kuadrant_limits window spec =
    window_limits window
      (elements (nested spec (codes "limits" ∷ codes "tokens" ∷ codes "rates" ∷ [])))

-- The rules of an Envoy object, and the rates of a Kuadrant object, by their number.
unfoldable pub envoy_count : Value → ℕ
unfolding elements nested
envoy_count spec =
    length (elements (nested spec (codes "rateLimit" ∷ codes "global" ∷ codes "rules" ∷ [])))

unfoldable pub kuadrant_count : Value → ℕ
unfolding elements nested
kuadrant_count spec =
    length (elements (nested spec (codes "limits" ∷ codes "tokens" ∷ codes "rates" ∷ [])))

abbrev pub limit_list : Option ℤ → List ℤ
limit_list none = []
limit_list (some v) = v ∷ []

-- The limit, and 0 where neither it nor the other is set.
abbrev pub limit_or_zero : Option ℤ → Option ℤ → List ℤ
limit_or_zero limit other =
    if is_nil_ptr limit && is_nil_ptr other then pos 0 ∷ [] else limit_list limit

-- What the object for a type says of a quota: these limits, and no other.
abbrev pub Carries : GatewayType → TokenQuota → Value → Type 0
Carries envoy_ai_gateway q spec =
    let tokens_limit = limit_list q.tokens_per_minute in
    let requests_limit = limit_or_zero q.requests_per_minute q.tokens_per_minute in
    (envoy_limits tokens (codes "Minute") spec ≡ tokens_limit)
    × (envoy_limits requests (codes "Minute") spec ≡ requests_limit)
    × (envoy_count spec ≡ length tokens_limit + length requests_limit)
Carries kuadrant q spec =
    let minute_limit = limit_or_zero q.tokens_per_minute q.tokens_per_day in
    let day_limit = limit_list q.tokens_per_day in
    (kuadrant_limits (codes "1m") spec ≡ minute_limit)
    × (kuadrant_limits (codes "24h") spec ≡ day_limit)
    × (kuadrant_count spec ≡ length minute_limit + length day_limit)
Carries _ q spec = ⊥

build_envoy-Carries :
    (t : GatewayTargetRef) (tp : TokenPolicy) (quota : Option TokenQuota)
    → Carries envoy_ai_gateway (quota_or_empty quota) (build_envoy t tp quota).spec
unfolding build_envoy base_meta envoy_limits envoy_count envoy_rules nested get get_field
    rule_limits elements numbers texts counts_of ◌==◌
build_envoy-Carries t tp none = (refl, refl, refl)
build_envoy-Carries t tp (some q) = elim (Option-cases q.requests_per_minute) [
  | inl e ↦ elim (Option-cases q.tokens_per_minute) [
    | inl f ↦ rw (e, f) (refl, refl, refl)
    | inr (v, f) ↦ rw (e, f) (refl, refl, refl)
  ]
  | inr (u, e) ↦ elim (Option-cases q.tokens_per_minute) [
    | inl f ↦ rw (e, f) (refl, refl, refl)
    | inr (v, f) ↦ rw (e, f) (refl, refl, refl)
  ]
]

build_kuadrant-Carries :
    (t : GatewayTargetRef) (tp : TokenPolicy) (quota : Option TokenQuota)
    → Carries kuadrant (quota_or_empty quota) (build_kuadrant t tp quota).spec
unfolding build_kuadrant base_meta kuadrant_limits kuadrant_count kuadrant_rates nested get
    get_field window_limits elements numbers texts ◌==◌
build_kuadrant-Carries t tp none = (refl, refl, refl)
build_kuadrant-Carries t tp (some q) = elim (Option-cases q.tokens_per_minute) [
  | inl e ↦ elim (Option-cases q.tokens_per_day) [
    | inl f ↦ rw (e, f) (refl, refl, refl)
    | inr (v, f) ↦ rw (e, f) (refl, refl, refl)
  ]
  | inr (u, e) ↦ elim (Option-cases q.tokens_per_day) [
    | inl f ↦ rw (e, f) (refl, refl, refl)
    | inr (v, f) ↦ rw (e, f) (refl, refl, refl)
  ]
]

-- An artifact is named after the policy and stands in its namespace, and it carries the limits of the
-- quota and no other: an Envoy object the tokens and the requests per minute, with a limit of 0
-- requests where neither is set; a Kuadrant object the tokens per minute and per day, with a limit of
-- 0 tokens per minute where neither is set.
pub artifact_for-Carries :
    (gw : GatewayIntegration) (tp : TokenPolicy) (quota : Option TokenQuota) (a : Artifact)
    → artifact_for (some gw) tp quota ≡ ok (some a)
    → (a.name ≡ artifact_name tp.name)
      × (a.namespace ≡ tp.namespace)
      × Carries gw.type (quota_or_empty quota) a.spec
unfolding build_envoy build_kuadrant base_meta
artifact_for-Carries gw tp quota a h =
    let (t, built) = artifact_for-BuiltFor gw tp quota a h in
    elim built [
      | inl (e, f) ↦ rw (e, f) (refl, refl, build_envoy-Carries t tp quota)
      | inr (e, f) ↦ rw (e, f) (refl, refl, build_kuadrant-Carries t tp quota)
    ]
