-- ===== src/Main/Setup.antt =====
-- cmd/main.go, internal/webhook/v1alpha1/setup.go and the `SetupWithManager` of the reconcilers: the calls
-- of controller-runtime that start the process. The manager is a parameter that acts on a state.
pub mod Started
use token_control.Common.{ℕ, Bool, true, false, List, [], ◌∷◌, Option, none, some, if◌then◌else◌}
use token_control.Common.Int.{ℤ}
use token_control.Text.{Text, codes}
use token_control.Webhook.Cluster.{Config}
use token_control.Controller.Watches.{ObjectKind}
use token_control.Main.{Flags, config_of}

-- `webhook.Options`
pub record ServerOptions : Type 0 where
  pub port : ℤ
  pub cert_dir : Text

-- `ctrl.Options`
pub record ManagerOptions : Type 0 where
  pub metrics_addr : Text
  pub probe_addr : Text
  pub leader_election : Bool
  pub leader_election_id : Text
  pub webhook_server : Option ServerOptions

pub data Reconciler : Type 0 where
  token_policy_reconciler cluster_token_policy_reconciler model_claim_reconciler : Reconciler
  model_credential_reconciler : Text → Reconciler

-- The builder of a controller: `For`, the kinds of `Watches` in order, and `Named`.
pub record ControllerSetup : Type 0 where
  pub reconciler : Reconciler
  pub object : ObjectKind
  pub watched : List ObjectKind
  pub name : Text

-- The builder of a webhook, by its object; a pod has a validator and a defaulter.
pub data WebhookSetup : Type 0 where
  cluster_token_policy_validator token_policy_validator model_claim_validator : WebhookSetup
  model_credential_validator : Text → WebhookSetup
  pod_validator_and_defaulter : Config → WebhookSetup

-- `healthz.Ping`, and the `StartedChecker` of the webhook server.
pub data Checker : Type 0 where
  ping webhook_started : Checker

-- The calls that may return an error.
pub data Call : Type 0 where
  new_manager : ManagerOptions → Call
  new_client : Call
  complete_controller : ControllerSetup → Call
  complete_webhook : WebhookSetup → Call
  add_healthz : Checker → Call
  add_readyz : Checker → Call
  start : Call

-- The call acts on the state, and returns its error or nil.
pub record Manager (S : Type 0) : Type 0 where
  pub perform : S → Call → S × Option Text

-- Code that acts on the state and returns an error or nil.
abbrev pub Setup : Type 0 → Type 0
Setup S = S → S × Option Text

unfoldable pub webhook_server : Flags → Option ServerOptions
webhook_server f =
    if f.enable_webhooks
    then some (record { port = f.webhook_port; cert_dir = f.cert_dir })
    else none

unfoldable pub manager_options : Flags → ManagerOptions
unfolding webhook_server
manager_options f = record {
  metrics_addr = f.metrics_addr;
  probe_addr = f.probe_addr;
  leader_election = f.enable_leader_election;
  leader_election_id = codes "token-control.tokencontrol.io";
  webhook_server = webhook_server f;
}

-- `if err != nil { return err }` between two steps.
infixl 5 ◌>>◌
abbrev pub ◌>>◌ : {S : Type 0} → Setup S → Setup S → Setup S
◌>>◌ first next s =
    let (s', error) = first s in elim error [ none ↦ next s' | some e ↦ (s', some e) ]

-- `return nil`
abbrev pub done : {S : Type 0} → Setup S
done s = (s, none)

abbrev pub when : {S : Type 0} → Bool → Setup S → Setup S
when b step = if b then step else done

abbrev pub exit_code : Option Text → ℕ
exit_code none = 0
exit_code (some e) = 1

module _ {S : Type 0} (M : Manager S) where
  abbrev pub call : Call → Setup S
  call c s = M.perform s c

  unfoldable pub set_up_token_policy : Setup S
  set_up_token_policy = call (
      complete_controller (record {
        reconciler = token_policy_reconciler;
        object = ObjectKind.token_policy;
        watched = ObjectKind.cluster_token_policy ∷ ObjectKind.model_credential ∷ [];
        name = codes "tokenpolicy";
      }))

  unfoldable pub set_up_cluster_token_policy : Setup S
  set_up_cluster_token_policy = call (
      complete_controller (record {
        reconciler = cluster_token_policy_reconciler;
        object = ObjectKind.cluster_token_policy;
        watched = ObjectKind.namespace ∷ [];
        name = codes "clustertokenpolicy";
      }))

  unfoldable pub set_up_model_credential : Text → Setup S
  set_up_model_credential operator_namespace = call (
      complete_controller (record {
        reconciler = model_credential_reconciler operator_namespace;
        object = ObjectKind.model_credential;
        watched = ObjectKind.namespace ∷ [];
        name = codes "modelcredential";
      }))

  unfoldable pub set_up_model_claim : Setup S
  set_up_model_claim = call (
      complete_controller (record {
        reconciler = model_claim_reconciler;
        object = ObjectKind.model_claim;
        watched =
            ObjectKind.cluster_token_policy ∷ ObjectKind.token_policy ∷ ObjectKind.model_credential
            ∷ ObjectKind.namespace ∷ [];
        name = codes "modelclaim";
      }))

  -- `SetupWebhooksWithManager`
  unfoldable pub set_up_webhooks : Config → Setup S
  set_up_webhooks cfg = do
    call (complete_webhook cluster_token_policy_validator)
    call (complete_webhook token_policy_validator)
    call (complete_webhook (model_credential_validator cfg.operator_namespace))
    call (complete_webhook model_claim_validator)
    call (complete_webhook (pod_validator_and_defaulter cfg))

  -- `main` after the flags are parsed. `Start` returns when the process is told to stop.
  unfoldable pub set_up : Flags → Setup S
  unfolding set_up_token_policy set_up_cluster_token_policy set_up_model_credential
      set_up_model_claim set_up_webhooks manager_options config_of
  set_up f = do
    call (new_manager (manager_options f))
    call new_client
    set_up_token_policy
    set_up_cluster_token_policy
    set_up_model_credential f.operator_namespace
    set_up_model_claim
    when f.enable_webhooks (set_up_webhooks (config_of f.operator_namespace f.exempt_namespaces))
    call (add_healthz ping)
    call (add_readyz (if f.enable_webhooks then webhook_started else ping))
    call start

  -- The state at the end, and the exit code of the process.
  unfoldable pub main : Flags → S → S × ℕ
  unfolding set_up
  main f s = let r = set_up f s in (r.0, exit_code r.1)
