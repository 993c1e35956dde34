-- ===== src/Controller/Artifacts.antt =====
-- internal/controller/tokenpolicy_controller.go: `reconcileGateway` and `deleteArtifact`. The client that
-- applies and deletes artifacts is not code of the repository: a parameter that acts on a state.
mod Tests
pub mod Laws
pub mod Installed
pub mod Store
use token_control.Common.{
  ℕ, Bool, true, false, ◌&&◌, List, [], ◌∷◌, ◌++◌, Option, none, some, if◌then◌else◌,
}
use token_control.Common.Int.{ℤ}
use token_control.Common.Result.{Result, ok, err}
use token_control.Text.{Text, ◌==◌, codes}
use token_control.Api.{GatewayType, GatewayIntegration}
use token_control.Api.Policies.{TokenPolicy, TokenPolicyStatus}
use token_control.Gateway.{
  GroupVersionKind, envoy_backend_traffic_policy_gvk, kuadrant_token_rate_limit_policy_gvk,
  Artifact, artifact_name, GatewayError, artifact_for,
}
use token_control.Policy.Effective.{Effective}
use token_control.Controller.Conditions.{Conditions, set_condition}

-- The answer to a Patch; `apimeta.IsNoMatchError` is a case of its own.
pub data Patched : Type 0 where
  applied : Patched
  no_match : Text → Patched
  rejected : Text → Patched

-- The client over the states `S` of the API server. `patch` is a server-side apply that forces
-- ownership; `set_owner` is controllerutil.SetControllerReference, by the owner's name.
pub record ApplyClient (S : Type 0) : Type 0 where
  pub delete : S → GroupVersionKind → Text → Text → S × Option Text
  pub patch : S → Artifact → S × Patched
  pub set_owner : Text → Artifact → Result Text Artifact

-- The object that is read: the policy with its generation and its status.
pub record StoredPolicy : Type 0 where
  pub policy : TokenPolicy
  pub generation : ℤ
  pub status : TokenPolicyStatus

-- `gvk == keep`
unfoldable pub same_gvk : GroupVersionKind → GroupVersionKind → Bool
same_gvk a b = a.group == b.group && (a.version == b.version && a.kind == b.kind)

-- `schema.GroupVersionKind{}`
abbrev pub no_gvk : GroupVersionKind
no_gvk = record { group = []; version = []; kind = [] }

abbrev pub kept_gvk : Option Artifact → GroupVersionKind
kept_gvk none = no_gvk
kept_gvk (some a) = a.gvk

abbrev pub artifact_gvks : List GroupVersionKind
artifact_gvks = envoy_backend_traffic_policy_gvk ∷ kuadrant_token_rate_limit_policy_gvk ∷ []

-- What `reconcileGateway` returns.
pub data GatewayFailure : Type 0 where
  invalid_config : GatewayError → GatewayFailure
  not_owned : Text → GatewayFailure
  not_applied : Patched → GatewayFailure

-- The state, the status and the error after `reconcileGateway`, and the gauge that it sets: the type
-- of the gateway, with the count.
pub record GatewayRun (S : Type 0) : Type 0 where
  pub state : S
  pub status : TokenPolicyStatus
  pub gauge : Option (GatewayType × ℕ)
  pub error : Option GatewayFailure

abbrev pub type_of : Option GatewayIntegration → GatewayType
type_of none = GatewayType.unset
type_of (some gw) = gw.type

module _ (D : Conditions) where
  abbrev pub gateway_synced : Bool → Text → ℤ → TokenPolicyStatus → TokenPolicyStatus
  gateway_synced holds reason generation st = record st {
    conditions = set_condition D (codes "GatewaySynced") holds reason generation st.conditions;
  }

  module _ {S : Type 0} (A : ApplyClient S) where
    -- The error of the Delete is dropped.
    unfoldable pub delete_artifact : GroupVersionKind → Text → Text → S → S
    delete_artifact gvk ns name s = (A.delete s gvk ns name).0

    -- The loop over the kinds of artifacts.
    unfoldable pub clean_up : GroupVersionKind → TokenPolicy → List GroupVersionKind → S → S
    clean_up keep tp [] s = s
    clean_up keep tp (gvk ∷ gvks) s = clean_up keep tp gvks (
        if same_gvk gvk keep then s else delete_artifact gvk tp.namespace (artifact_name tp.name) s)

    -- From the Patch on.
    unfoldable pub conclude_patch :
        StoredPolicy → GatewayType → Artifact → S × Patched → GatewayRun S
    conclude_patch s type desired (st, applied) = record {
      state = st;
      status =
          gateway_synced true (codes "Synced") s.generation
            (record s.status { gateway_ref = desired.gvk.kind ++ (codes "/" ++ desired.name) });
      gauge = some (type, 1);
      error = none;
    }
    conclude_patch s type desired (st, no_match e) = record {
      state = st;
      status = gateway_synced false (codes "GatewayCRDNotInstalled") s.generation s.status;
      gauge = none;
      error = some (not_applied (no_match e));
    }
    conclude_patch s type desired (st, rejected e) = record {
      state = st;
      status = gateway_synced false (codes "ApplyFailed") s.generation s.status;
      gauge = none;
      error = some (not_applied (rejected e));
    }

    -- From the clean-up on.
    unfoldable pub sync_artifact : StoredPolicy → GatewayType → Option Artifact → S → GatewayRun S
    sync_artifact s type none st = record {
      state = clean_up no_gvk s.policy artifact_gvks st;
      status =
          gateway_synced true (codes "Disabled") s.generation
            (record s.status { gateway_ref = [] });
      gauge = some (GatewayType.none, 0);
      error = none;
    }
    sync_artifact s type (some desired) st =
        let cleaned = clean_up desired.gvk s.policy artifact_gvks st in
        elim (A.set_owner s.policy.name desired) [
          | err e ↦ record {
            state = cleaned;
            status = s.status;
            gauge = none;
            error = some (not_owned e);
          }
          | ok owned ↦ conclude_patch s type owned (A.patch cleaned owned)
        ]

    -- `reconcileGateway`
    unfoldable pub reconcile_gateway : StoredPolicy → Effective → S → GatewayRun S
    reconcile_gateway s eff st = elim (artifact_for eff.gateway s.policy eff.quota) [
      | err e ↦ record {
        state = st;
        status = gateway_synced false (codes "InvalidConfig") s.generation s.status;
        gauge = none;
        error = some (invalid_config e);
      }
      | ok desired ↦ sync_artifact s (type_of eff.gateway) desired st
    ]
