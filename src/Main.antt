-- ===== src/Main.antt =====
-- cmd/main.go: the settings that the manager hands to the controllers and the webhooks.
mod Tests
pub mod Exempt
pub mod Setup
use token_control.Common.{Bool, true, false, List, [], ◌∷◌, any, if◌then◌else◌}
use token_control.Common.Int.{ℤ, pos}
use token_control.Text.{Text, ◌==◌, codes, non_empty, split, trim_space}
use token_control.Webhook.Cluster.{Config}

-- `envOr`, by what os.Getenv returns for the key.
unfoldable pub env_or : Text → Text → Text
env_or v fallback = if non_empty v then v else fallback

-- `out[s] = struct{}{}`: the keys of the map, each once.
unfoldable pub add_key : Text → List Text → List Text
add_key s out = if any (λ k. k == s) out then out else s ∷ out

-- The loop over the parts.
unfoldable pub parse_parts : List Text → List Text → List Text
unfolding add_key
parse_parts out [] = out
parse_parts out (s ∷ parts) =
    parse_parts (if non_empty (trim_space s) then add_key (trim_space s) out else out) parts

-- `parseSet`
unfoldable pub parse_set : Text → List Text
unfolding parse_parts split
parse_set csv = parse_parts [] (split csv b',')

-- The flags of `main`. Those of the logger are left out.
pub record Flags : Type 0 where
  pub metrics_addr : Text
  pub probe_addr : Text
  pub enable_leader_election : Bool
  pub webhook_port : ℤ
  pub cert_dir : Text
  pub enable_webhooks : Bool
  pub operator_namespace : Text
  pub exempt_namespaces : Text

-- Their defaults, by the value of POD_NAMESPACE.
unfoldable pub default_flags : Text → Flags
unfolding env_or
default_flags pod_namespace = record {
  metrics_addr = codes ":8080";
  probe_addr = codes ":8081";
  enable_leader_election = false;
  webhook_port = pos 9443;
  cert_dir = codes "/tmp/k8s-webhook-server/serving-certs";
  enable_webhooks = true;
  operator_namespace = env_or pod_namespace (codes "token-control-system");
  exempt_namespaces = codes "kube-system,kube-public,kube-node-lease";
}

-- The configuration of the webhooks, from the flags.
unfoldable pub config_of : Text → Text → Config
unfolding parse_set
config_of operator_namespace exempt_namespaces = record {
  operator_namespace = operator_namespace;
  exempt_namespaces = parse_set exempt_namespaces;
}
