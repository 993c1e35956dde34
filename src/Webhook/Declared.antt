-- ===== src/Webhook/Declared.antt =====
-- internal/webhook/v1alpha1/webhook_common.go: the models that a pod is governed for.
pub mod Keys
use token_control.Common.{
  Bool, true, false, ◌&&◌, ◌||◌, List, [], ◌∷◌, ◌++◌, map, Option, none, some, is_nil,
  if◌then◌else◌,
}
use token_control.Common.Result.{Result, ok, err, ◌>>=◌}
use token_control.Common.Sort.{sort}
use token_control.Text.{Text, ◌==◌, before, codes, to_lower, trim_space, split, cut, non_empty}
use token_control.Api.{CredentialReference}
use token_control.Api.Selector.{Labels, LabelSelectors}
use token_control.Api.Claim.{ModelRequest, ModelClaim}
use token_control.Policy.Tier.{credential_name}
use token_control.Policy.Selector.{workload_matches}
use token_control.Policy.Resolve.{labels_of}
use token_control.Webhook.Cluster.{Client}
use token_control.Webhook.Pod.{Pod, sa_of, annotation}

pub record DeclaredModel : Type 0 where
  pub provider : Text
  pub model : Text
  pub credential : Text

abbrev pub annotation_models : Text
annotation_models = codes "governance.tokencontrol.io/models"

abbrev declared_if : Option (Text × Text) → List DeclaredModel → List DeclaredModel
declared_if none rest = rest
declared_if (some (p, m)) rest =
    if is_nil p || is_nil m
    then rest
    else record { provider = trim_space p; model = trim_space m; credential = [] } ∷ rest

parse_tokens : List Text → List DeclaredModel
parse_tokens [] = []
parse_tokens (tok ∷ toks) =
    let rest = parse_tokens toks in
    if is_nil (trim_space tok) then rest else declared_if (cut (trim_space tok) b'/') rest

unfoldable pub parse_models : Pod → List DeclaredModel
unfolding parse_tokens
parse_models pod =
    let raw = annotation pod.annotations annotation_models in
    if is_nil (trim_space raw) then [] else parse_tokens (split raw b',')

-- The key of the map `seen`.
abbrev pub same_model : DeclaredModel → DeclaredModel → Bool
same_model a b = to_lower a.provider == to_lower b.provider && to_lower a.model == to_lower b.model

abbrev pub prefer : DeclaredModel → Text → DeclaredModel
prefer d cred = if is_nil d.credential && non_empty cred then record d { credential = cred } else d

-- `add` for a pair that is not blank: `seen` is the index in `out` of the entry with the key.
unfoldable pub merge : List DeclaredModel → DeclaredModel → List DeclaredModel
merge [] new = new ∷ []
merge (d ∷ out) new =
    let later = merge out new in
    if same_model d new then prefer d new.credential ∷ out else d ∷ later

unfoldable pub add : List DeclaredModel → Text → Text → Text → List DeclaredModel
add out provider model cred =
    if is_nil (trim_space provider) || is_nil (trim_space model)
    then out
    else merge out
        (record { provider = trim_space provider; model = trim_space model; credential = cred })

unfoldable pub add_requests : List DeclaredModel → List ModelRequest → List DeclaredModel
add_requests out [] = out
add_requests out (m ∷ ms) =
    add_requests (add out m.provider m.model (credential_name m.credential_ref)) ms

abbrev is_ok_true : Result Text Bool → Bool
is_ok_true (ok b) = b
is_ok_true (err e) = false

-- The claim selects the pod, and its selector can be read.
abbrev pub selects : LabelSelectors → Pod → ModelClaim → Bool
selects K pod cl =
    is_ok_true (workload_matches K cl.spec.selector (labels_of pod.labels) (sa_of pod))

unfoldable pub add_claims :
    LabelSelectors → Pod → List DeclaredModel → List ModelClaim → List DeclaredModel
add_claims K pod out [] = out
add_claims K pod out (cl ∷ cls) =
    add_claims K pod (if selects K pod cl then add_requests out cl.spec.models else out) cls

unfoldable pub add_declared : List DeclaredModel → List DeclaredModel → List DeclaredModel
add_declared out [] = out
add_declared out (d ∷ ds) = add_declared (add out d.provider d.model []) ds

abbrev pub by_claim_name : ModelClaim → ModelClaim → Bool
by_claim_name a b = before a.name b.name

unfoldable pub declared_models :
    LabelSelectors → Client → Text → Pod → Result Text (List DeclaredModel)
declared_models K c namespace pod = do
  claims ← c.list_claims namespace
  ok (add_declared (add_claims K pod [] (sort by_claim_name claims)) (parse_models pod))
