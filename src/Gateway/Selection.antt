-- ===== src/Gateway/Selection.antt =====
-- Which object is built, and when there is none.
use token_control.Common.{
  ◌≡◌, inl, inr, refl, true, Option, none, some, arith, Option-cases, Bool-cases, ◌⊎◌, ◌↔◌,
}
use token_control.Common.Result.{ok}
use token_control.Api.{
  TokenQuota, GatewayType, envoy_ai_gateway, kuadrant, GatewayTargetRef, GatewayIntegration,
}
use token_control.Api.Policies.{TokenPolicy}
use token_control.Gateway.{Artifact, build_envoy, build_kuadrant, build, artifact_for, is_disabled}

-- The object of a type, for the target.
abbrev pub BuiltFor : GatewayIntegration → TokenPolicy → Option TokenQuota → Artifact → Type 0
BuiltFor gw tp quota a =
    (t : GatewayTargetRef) × ((gw.type ≡ envoy_ai_gateway) × (a ≡ build_envoy t tp quota)
      ⊎ (gw.type ≡ kuadrant) × (a ≡ build_kuadrant t tp quota))

build-inverts :
    (type : GatewayType) (t : GatewayTargetRef) (tp : TokenPolicy) (quota : Option TokenQuota)
    (a : Artifact)
    → build type t tp quota ≡ ok (some a)
    → (type ≡ envoy_ai_gateway) × (a ≡ build_envoy t tp quota)
      ⊎ (type ≡ kuadrant) × (a ≡ build_kuadrant t tp quota)
unfolding build
build-inverts envoy_ai_gateway t tp quota a h = inl (refl, ground arith)
build-inverts kuadrant t tp quota a h = inr (refl, ground arith)
build-inverts GatewayType.unset t tp quota a h = absurd (ground arith)
build-inverts GatewayType.none t tp quota a h = absurd (ground arith)
build-inverts (GatewayType.other x) t tp quota a h = absurd (ground arith)

pub artifact_for-BuiltFor :
    (gw : GatewayIntegration) (tp : TokenPolicy) (quota : Option TokenQuota) (a : Artifact)
    → artifact_for (some gw) tp quota ≡ ok (some a)
    → BuiltFor gw tp quota a
unfolding artifact_for
artifact_for-BuiltFor gw tp quota a h = elim (Bool-cases (is_disabled gw.type)) [
  | inl e ↦ absurd (ground (arith, (rw (e, artifact_for) at h)))
  | inr e ↦ elim (Option-cases gw.target_ref) [
    | inl f ↦ absurd (ground (arith, (rw (e, f, artifact_for) at h)))
    | inr (t, f) ↦ (t, build-inverts gw.type t tp quota a (rw (e, f, artifact_for) at h))
  ]
]

-- No integration is configured: there is none, or its type is None or not set.
abbrev pub Disabled : Option GatewayIntegration → Type 0
Disabled none = Unit
Disabled (some gw) = is_disabled gw.type ≡ true

-- The type is one of the two gateways, and there is a target.
abbrev pub IsSupported : Option GatewayIntegration → Type 0
IsSupported none = ⊥
IsSupported (some gw) =
    ((gw.type ≡ envoy_ai_gateway) ⊎ (gw.type ≡ kuadrant))
    × (t : GatewayTargetRef) × (gw.target_ref ≡ some t)

abbrev Selects : Option GatewayIntegration → TokenPolicy → Option TokenQuota → Type 0
Selects gw tp quota =
    ((artifact_for gw tp quota ≡ ok none) ↔ Disabled gw)
    × (((a : Artifact) × (artifact_for gw tp quota ≡ ok (some a))) ↔ IsSupported gw)

selects :
    (type : GatewayType) (target : Option GatewayTargetRef) (tp : TokenPolicy)
    (quota : Option TokenQuota)
    → Selects (some (record { type = type; target_ref = target })) tp quota
unfolding artifact_for build
selects GatewayType.unset target tp quota =
    ((λ h. refl, λ h. refl), (λ (a, h). absurd (ground arith), λ (t, _, _). absurd (ground arith)))
selects GatewayType.none target tp quota =
    ((λ h. refl, λ h. refl), (λ (a, h). absurd (ground arith), λ (t, _, _). absurd (ground arith)))
selects (GatewayType.other x) none tp quota = (
  (λ h. absurd (ground arith), λ h. absurd (ground arith)),
  (λ (a, h). absurd (ground arith), λ (t, _, _). absurd (ground arith)),
)
selects (GatewayType.other x) (some target) tp quota = (
  (λ h. absurd (ground arith), λ h. absurd (ground arith)),
  (λ (a, h). absurd (ground arith), λ (t, _, _). absurd (ground arith)),
)
selects envoy_ai_gateway none tp quota = (
  (λ h. absurd (ground arith), λ h. absurd (ground arith)),
  (λ (a, h). absurd (ground arith), λ (_, t, h). absurd (ground arith)),
)
selects kuadrant none tp quota = (
  (λ h. absurd (ground arith), λ h. absurd (ground arith)),
  (λ (a, h). absurd (ground arith), λ (_, t, h). absurd (ground arith)),
)
selects envoy_ai_gateway (some target) tp quota = (
  (λ h. absurd (ground arith), λ h. absurd (ground arith)),
  (λ _. (inl refl, target, refl), λ _. (build_envoy target tp quota, refl)),
)
selects kuadrant (some target) tp quota = (
  (λ h. absurd (ground arith), λ h. absurd (ground arith)),
  (λ _. (inr refl, target, refl), λ _. (build_kuadrant target tp quota, refl)),
)

-- No artifact is wanted, without an error, exactly where no integration is configured, or its type is
-- None or not set; and there is an artifact exactly where the type is one of the two gateways and a
-- target is given. So a type without a target and a type that is not known are errors.
artifact_for-IsSupported :
    (gw : Option GatewayIntegration) (tp : TokenPolicy) (quota : Option TokenQuota)
    → ((artifact_for gw tp quota ≡ ok none) ↔ Disabled gw)
      × (((a : Artifact) × (artifact_for gw tp quota ≡ ok (some a))) ↔ IsSupported gw)
unfolding artifact_for
artifact_for-IsSupported none tp quota =
    ((λ _. tt, λ _. refl), (λ (a, h). absurd (ground arith), λ h. absurd h))
artifact_for-IsSupported (some gw) tp quota = selects gw.type gw.target_ref tp quota
