-- ===== src/Webhook/Pod.antt =====
-- Pods as far as the webhooks read and change them (k8s.io/api/core/v1), and the helpers on pods of
-- internal/webhook/v1alpha1/webhook_common.go.
use token_control.Common.{Bool, List, [], ◌∷◌, Option, none, some, if◌then◌else◌}
use token_control.Text.{Text, ◌==◌, codes, non_empty}
use token_control.Api.Selector.{Labels}

-- Where the value of a variable is from: a literal, or a key of a Secret.
pub data EnvSource : Type 0 where
  literal : Text → EnvSource
  secret_key : Text → Text → EnvSource

pub record EnvVar : Type 0 where
  pub name : Text
  pub source : EnvSource

pub record VolumeMount : Type 0 where
  pub name : Text
  pub mount_path : Text
  pub read_only : Bool

pub record Container : Type 0 where
  pub env : List EnvVar
  pub volume_mounts : List VolumeMount

pub data VolumeSource : Type 0 where
  -- The secret, and the key that is shown as the file `apikey`.
  secret : Text → Text → VolumeSource
  other : VolumeSource

pub record Volume : Type 0 where
  pub name : Text
  pub source : VolumeSource

pub record Pod : Type 0 where
  pub name : Text
  pub namespace : Text
  pub labels : Option Labels
  pub annotations : Labels
  pub service_account_name : Text
  pub containers : List Container
  pub init_containers : List Container
  pub volumes : List Volume

unfoldable pub sa_of : Pod → Text
sa_of pod = if non_empty pod.service_account_name then pod.service_account_name else codes "default"

-- The request of the context has a namespace, or there is no request.
unfoldable pub namespace_from : Option Text → Text → Text
namespace_from none fallback = fallback
namespace_from (some ns) fallback = if non_empty ns then ns else fallback

-- `annotations[key]`, empty where it is missing.
unfoldable pub annotation : Labels → Text → Text
unfolding ◌==◌
annotation [] key = []
annotation (a ∷ rest) key = if a.0 == key then a.1 else annotation rest key

-- `annotations[key] = value`
unfoldable pub put : Labels → Text → Text → Labels
unfolding ◌==◌
put [] key value = (key, value) ∷ []
put (a ∷ kept) key value =
    let later = put kept key value in if a.0 == key then (key, value) ∷ kept else a ∷ later

unfoldable pub set_annotation : Pod → Text → Text → Pod
set_annotation pod key value = record pod { annotations = put pod.annotations key value }
