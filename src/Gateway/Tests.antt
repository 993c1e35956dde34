-- ===== src/Gateway/Tests.antt =====
-- Objects built for concrete policies, and the theorems at them.
use token_control.Common.{◌≡◌, refl, [], ◌∷◌, some}
use token_control.Common.Int.{pos, negsuc}
use token_control.Text.{codes, ◌==◌}
use token_control.Text.Decimal.{print_int, print_ℕ}
use token_control.Api.{envoy_ai_gateway, GatewayTargetRef, GatewayIntegration}
use token_control.Policy.Samples.{per_minute, team_default}
use token_control.Controller.Capacity.{empty_quota}
use token_control.Gateway.{
  Artifact, artifact_name, build_envoy, envoy_rules, base_meta, artifact_for, build,
}
use token_control.Gateway.Object.{nested, get, get_field}
use token_control.Gateway.Limits.{Carries, requests, envoy_limits, artifact_for-Carries}
use token_control.Gateway.Annotations.{Annotated, artifact_for-Annotated}

abbrev route : GatewayTargetRef
route = record { group = []; kind = codes "AIGatewayRoute"; name = codes "chat"; namespace = [] }

abbrev envoy : GatewayIntegration
envoy = record { type = envoy_ai_gateway; target_ref = some route }

prints : print_int (negsuc 41) ≡ codes "-42"
unfolding print_int print_ℕ
prints = refl

-- A budget per month alone makes an object that lets no request pass.
blocks :
    envoy_limits requests
      (codes "Minute")
      (build_envoy route team_default
        (some (record empty_quota { tokens_per_month = some (pos 1000000) }))).spec
    ≡ pos 0 ∷ []
unfolding build_envoy base_meta envoy_limits envoy_rules nested get get_field ◌==◌
blocks = refl

abbrev built : Artifact
built = build_envoy route team_default (some (per_minute (pos 500)))

artifact_for-Carries_example :
    (built.name ≡ artifact_name team_default.name)
    × (built.namespace ≡ team_default.namespace)
    × Carries envoy_ai_gateway (per_minute (pos 500)) built.spec
unfolding artifact_for build
artifact_for-Carries_example =
    artifact_for-Carries envoy team_default (some (per_minute (pos 500))) built refl

artifact_for-Annotated_example : Annotated (per_minute (pos 500)) built.annotations
unfolding artifact_for build
artifact_for-Annotated_example =
    artifact_for-Annotated envoy team_default (some (per_minute (pos 500))) built refl
