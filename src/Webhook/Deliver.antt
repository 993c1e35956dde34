-- ===== src/Webhook/Deliver.antt =====
-- internal/webhook/v1alpha1/pod_webhook.go: `injectCredential`, which writes one credential into a
-- pod, with `defaultEnvName`.
pub mod Kept
pub mod Again
use token_control.Common.{
  Bool, true, false, ◌||◌, List, [], ◌∷◌, ◌++◌, Option, none, some, any, if◌then◌else◌,
}
use token_control.Text.{Text, ◌==◌, codes, non_empty, to_lower, to_upper, dashes_to_underscores}
use token_control.Api.Credential.{InjectionMode, CredentialInjection, ModelCredential}
use token_control.Webhook.Pod.{secret, secret_key, EnvVar, VolumeMount, Container, Volume, Pod}

abbrev is_one_of : Text → List Text → Bool
is_one_of s names = any (λ n. s == n) names

-- The switch, from the provider in lower case.
abbrev conventional_env_name : Text → Text → Text
conventional_env_name p provider =
    if is_one_of p (codes "openai" ∷ codes "azure-openai" ∷ codes "azureopenai" ∷ [])
    then codes "OPENAI_API_KEY"
    else if p == codes "anthropic"
    then codes "ANTHROPIC_API_KEY"
    else if is_one_of p (codes "google" ∷ codes "gemini" ∷ codes "vertex" ∷ codes "vertexai" ∷ [])
    then codes "GOOGLE_API_KEY"
    else if is_one_of p (codes "bedrock" ∷ codes "aws" ∷ [])
    then codes "AWS_BEARER_TOKEN_BEDROCK"
    else if p == codes "cohere"
    then codes "COHERE_API_KEY"
    else if p == codes "mistral"
    then codes "MISTRAL_API_KEY"
    else if p == codes "groq"
    then codes "GROQ_API_KEY"
    else to_upper (dashes_to_underscores provider) ++ codes "_API_KEY"

unfoldable pub default_env_name : Text → Text
default_env_name provider = conventional_env_name (to_lower provider) provider

unfoldable pub has_env : List EnvVar → Text → Bool
has_env env name = any (λ e. e.name == name) env

unfoldable pub has_volume : List Volume → Text → Bool
has_volume vols name = any (λ v. v.name == name) vols

unfoldable pub has_mount : List VolumeMount → Text → Bool
has_mount mounts name = any (λ m. m.name == name) mounts

-- The closures `apply`: the containers, and whether one was changed.
unfoldable pub apply :
    (Container → Bool) → (Container → Container) → List Container → List Container × Bool
apply has extend [] = ([], false)
apply has extend (c ∷ cs) =
    let rest = apply has extend cs in
    if has c then (c ∷ rest.0, rest.1) else (extend c ∷ rest.0, true)

abbrev pub with_env : EnvVar → Container → Container
with_env v c = record c { env = c.env ++ (v ∷ []) }

abbrev pub with_mount : VolumeMount → Container → Container
with_mount m c = record c { volume_mounts = c.volume_mounts ++ (m ∷ []) }

-- `apply(pod.Spec.Containers)` and `apply(pod.Spec.InitContainers)`
unfoldable pub apply_both : (Container → Bool) → (Container → Container) → Pod → Pod × Bool
apply_both has extend pod =
    let main = apply has extend pod.containers in
    let init = apply has extend pod.init_containers in
    (record pod { containers = main.0; init_containers = init.0 }, main.1 || init.1)

abbrev pub env_var : Text → Text → Text → EnvVar
env_var name secret_name key = record { name = name; source = secret_key secret_name key }

unfoldable pub inject_env : Pod → Text → Text → Text → Pod × Bool
inject_env pod name secret_name key =
    apply_both (λ c. has_env c.env name) (with_env (env_var name secret_name key)) pod

abbrev pub managed_secret_prefix : Text
managed_secret_prefix = codes "tc-cred-"

abbrev mount_path_of : Option CredentialInjection → Text → Text
mount_path_of none provider = codes "/var/run/secrets/tokencontrol/" ++ provider
mount_path_of (some i) provider =
    if non_empty i.mount_path
    then i.mount_path
    else codes "/var/run/secrets/tokencontrol/" ++ provider

abbrev pub mount_of : ModelCredential → VolumeMount
mount_of mc = record {
  name = codes "tc-cred-" ++ mc.name;
  mount_path = mount_path_of mc.spec.injection mc.spec.provider;
  read_only = true;
}

abbrev pub with_volume : Pod → Text → Text → Text → Pod
with_volume pod name secret_name key = if has_volume pod.volumes name then pod else record pod {
  volumes = pod.volumes ++ (record { name = name; source = secret secret_name key } ∷ []);
}

unfoldable pub inject_volume : Pod → ModelCredential → Text → Text → Pod × Bool
inject_volume pod mc secret_name key =
    apply_both (λ c. has_mount c.volume_mounts (mount_of mc).name) (with_mount (mount_of mc))
      (with_volume pod (mount_of mc).name secret_name key)

-- `mode`, where Injection is nil or its mode is empty the variable.
abbrev pub mode_of : Option CredentialInjection → InjectionMode
mode_of none = InjectionMode.env
mode_of (some i) = elim i.mode [
  | InjectionMode.unset ↦ InjectionMode.env
  | InjectionMode.env ↦ InjectionMode.env
  | InjectionMode.projected_volume ↦ InjectionMode.projected_volume
  | InjectionMode.none ↦ InjectionMode.none
  | InjectionMode.other t ↦ InjectionMode.other t
]

abbrev pub env_name_of : Option CredentialInjection → Text → Text
env_name_of none provider = default_env_name provider
env_name_of (some i) provider =
    if non_empty i.env_name then i.env_name else default_env_name provider

-- The switch on the mode.
unfoldable pub deliver : InjectionMode → Pod → ModelCredential → Pod × Bool
deliver InjectionMode.none pod mc = (pod, false)
deliver InjectionMode.projected_volume pod mc =
    inject_volume pod mc (managed_secret_prefix ++ mc.name) mc.spec.secret_ref.key
deliver _ pod mc =
    inject_env pod (env_name_of mc.spec.injection mc.spec.provider)
      (managed_secret_prefix ++ mc.name) mc.spec.secret_ref.key

unfoldable pub inject_credential : Pod → ModelCredential → Pod × Bool
inject_credential pod mc = deliver (mode_of mc.spec.injection) pod mc
