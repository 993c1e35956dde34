-- ===== src/Controller/Artifacts/Tests.antt =====
-- The gateway artifacts of a policy at concrete objects.
use token_control.Common.{◌≡◌, refl, [], none, some}
use token_control.Text.{◌==◌, codes}
use token_control.Api.{envoy_ai_gateway, kuadrant, GatewayTargetRef}
use token_control.Policy.Effective.{Effective}
use token_control.Policy.Resolve.{initial}
use token_control.Gateway.{
  artifact_name, build_envoy, build_kuadrant, artifact_for, build, base_meta,
  envoy_backend_traffic_policy_gvk,
}
use token_control.Controller.Samples.{prepend, stored_token_policy}
use token_control.Controller.Artifacts.{
  same_gvk, delete_artifact, clean_up, conclude_patch, sync_artifact, reconcile_gateway,
}
use token_control.Controller.Artifacts.Installed.{Installed, reconcile_gateway-Installed}
use token_control.Controller.Artifacts.Store.{Store, store, store-ApplyLaws, store-DeletesArtifacts}

abbrev route : GatewayTargetRef
route = record { group = []; kind = codes "AIGatewayRoute"; name = codes "chat"; namespace = [] }

-- A decision with the Envoy gateway, and one that has switched to Kuadrant.
abbrev through_envoy : Effective
through_envoy = record initial.eff {
  gateway = some (record { type = envoy_ai_gateway; target_ref = some route });
}

abbrev through_kuadrant : Effective
through_kuadrant = record initial.eff {
  gateway = some (record { type = kuadrant; target_ref = some route });
}

abbrev empty : Store
empty gvk ns name = none

abbrev with_envoy : Store
with_envoy = (reconcile_gateway prepend store stored_token_policy through_envoy empty).state

-- The switch of the type removes the artifact of the other gateway.
switched :
    (reconcile_gateway prepend store stored_token_policy through_kuadrant with_envoy).state
      envoy_backend_traffic_policy_gvk
      (codes "team")
      (artifact_name (codes "default"))
    ≡ none
unfolding store reconcile_gateway sync_artifact clean_up delete_artifact conclude_patch same_gvk
    artifact_for build build_kuadrant build_envoy base_meta artifact_name ◌==◌
switched = refl

reconcile_gateway-Installed_example :
    Installed prepend store store-ApplyLaws stored_token_policy through_kuadrant with_envoy
      (reconcile_gateway prepend store stored_token_policy through_kuadrant with_envoy)
reconcile_gateway-Installed_example =
    reconcile_gateway-Installed prepend store store-ApplyLaws stored_token_policy through_kuadrant
      with_envoy store-DeletesArtifacts
