-- ===== src/Controller/Replication.antt =====
-- internal/controller/modelcredential_controller.go: the namespaces that a credential is replicated to.
mod Tests
pub mod Agreement
pub mod Keys
use token_control.Common.{Bool, List, [], ◌∷◌, Option, none, some, any, if◌then◌else◌}
use token_control.Common.Result.{Result, ok, err, ◌>>=◌}
use token_control.Text.{Text, ◌==◌}
use token_control.Api.Selector.{Labels, LabelSelector, LabelSelectors}
use token_control.Api.Credential.{ModelCredential}
use token_control.Policy.Selector.{selector_matches}

-- `out[n] = struct{}{}`
unfoldable pub put_key : Text → List Text → List Text
put_key n out = if any (λ k. k == n) out then out else n ∷ out

unfoldable pub put_all : List Text → List Text → List Text
put_all [] out = out
put_all (n ∷ ns) out = put_all ns (put_key n out)

module _ (K : LabelSelectors) where
  -- The loop over the namespaces that were listed.
  unfoldable pub put_selected :
      LabelSelector → List (Text × Labels) → List Text → Result Text (List Text)
  put_selected sel [] out = ok out
  put_selected sel (n ∷ ns) out = do
    match ← selector_matches K (some sel) n.1
    put_selected sel ns (if match then put_key n.0 out else out)

  -- `authorizedNamespaces`, from the client's answer to the list of namespaces.
  unfoldable pub authorized_namespaces :
      Result Text (List (Text × Labels)) → ModelCredential → Result Text (List Text)
  authorized_namespaces listed mc = elim mc.spec.namespace_selector [
    | none ↦ ok (put_all mc.spec.allowed_namespaces [])
    | some sel ↦
        listed >>= λ namespaces. put_selected sel namespaces (put_all mc.spec.allowed_namespaces [])
  ]
