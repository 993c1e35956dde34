-- ===== src/Controller/PolicyStatus.antt =====
-- internal/controller/tokenpolicy_controller.go: `Reconcile` of a TokenPolicy.
mod Tests
pub mod Reported
use token_control.Common.{ℕ, true, false, Option, none, some}
use token_control.Common.Int.{ℤ}
use token_control.Common.Result.{Result, ok, err, ◌>>=◌}
use token_control.Text.{Text, codes}
use token_control.Api.{GatewayType}
use token_control.Api.Selector.{LabelSelectors}
use token_control.Api.Policies.{TokenPolicyStatus}
use token_control.Policy.Effective.{Effective, effective_models}
use token_control.Policy.Resolve.{ResolveError, resolve_for_policy}
use token_control.Webhook.Cluster.{Fetch, found, not_found, failed, Client, namespace_labels}
use token_control.Controller.Conditions.{Conditions, set_condition}
use token_control.Controller.Claim.{distinct_allowed_credentials, count_allowed}
use token_control.Controller.Artifacts.{ApplyClient, StoredPolicy, reconcile_gateway}

-- The status that is written, with the gauge of allowed models and that of artifacts where they are
-- set. The error of `reconcileGateway` is logged.
pub data PolicyOutcome : Type 0 where
  update : TokenPolicyStatus → Option ℕ → Option (GatewayType × ℕ) → PolicyOutcome

module _ (D : Conditions) where
  -- What is written after an error of `ResolveForPolicy`.
  unfoldable pub invalid_policy : ℤ → TokenPolicyStatus → TokenPolicyStatus
  invalid_policy generation st = record st {
    conditions =
        set_condition D (codes "Ready") false (codes "ResolveError") generation
          (set_condition D (codes "Valid") false (codes "ResolveError") generation st.conditions);
  }

  -- The status before the gateway is reconciled.
  unfoldable pub resolved_policy : ℤ → Effective → TokenPolicyStatus → TokenPolicyStatus
  resolved_policy generation eff st =
      let models = effective_models eff in
      record st {
        observed_generation = generation;
        effective_models = models;
        effective_quota = eff.quota;
        bound_credentials = distinct_allowed_credentials models;
        conditions =
            set_condition D (codes "Ready") true (codes "Reconciled") generation
              (set_condition D (codes "Valid") true (codes "Resolved") generation st.conditions);
      }

  module _ {S : Type 0} (A : ApplyClient S) where
    -- From the answer of `ResolveForPolicy` on.
    unfoldable pub conclude_policy :
        StoredPolicy → S → Result ResolveError Effective → S × PolicyOutcome
    conclude_policy s st (err e) = (st, update (invalid_policy s.generation s.status) none none)
    conclude_policy s st (ok eff) =
        let gateway =
          reconcile_gateway D A (record s { status = resolved_policy s.generation eff s.status })
            eff st in
        (
          gateway.state,
          update gateway.status (some (count_allowed (effective_models eff))) gateway.gauge,
        )

module _ (K : LabelSelectors) (D : Conditions) (c : Client) {S : Type 0} (A : ApplyClient S) where
  -- What is read before the policy is resolved.
  unfoldable pub resolve_stored : StoredPolicy → Result Text (Result ResolveError Effective)
  resolve_stored s = do
    clusters ← c.list_cluster_policies
    policies ← c.list_policies s.policy.namespace
    labels ← namespace_labels c s.policy.namespace
    ok (resolve_for_policy K clusters policies labels s.policy)

  -- `Reconcile`: none where the policy is gone.
  unfoldable pub reconcile_policy : Fetch StoredPolicy → S → S × Result Text (Option PolicyOutcome)
  reconcile_policy not_found st = (st, ok none)
  reconcile_policy (failed e) st = (st, err e)
  reconcile_policy (found s) st = elim (resolve_stored s) [
    | err e ↦ (st, err e)
    | ok answer ↦ let r = conclude_policy D A s st answer in (r.0, ok (some r.1))
  ]
