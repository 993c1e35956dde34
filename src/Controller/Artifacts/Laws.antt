-- ===== src/Controller/Artifacts/Laws.antt =====
-- What is assumed of the client of artifacts: what the API server documents of its verbs.
use token_control.Common.{◌≡◌, ◌&&◌, false, Option, none, some}
use token_control.Common.Result.{ok}
use token_control.Text.{Text, ◌==◌}
use token_control.Gateway.{GroupVersionKind, Artifact}
use token_control.Gateway.Includes.{Includes}
use token_control.Controller.Artifacts.{applied, ApplyClient, same_gvk}

-- Two keys differ in the kind, the namespace or the name.
abbrev pub OtherKey : GroupVersionKind → Text → Text → GroupVersionKind → Text → Text → Type 0
OtherKey gvk ns name gvk' ns' name' = (same_gvk gvk gvk' && (ns == ns' && name == name')) ≡ false

pub record ApplyLaws {S : Type 0} (A : ApplyClient S) : Type 0 where
  -- The artifact of a kind, a namespace and a name, where there is one.
  pub stored : S → GroupVersionKind → Text → Text → Option Artifact
  -- A Delete and a Patch touch no other artifact.
  pub delete_others :
      (s : S) (gvk gvk' : GroupVersionKind) (ns name ns' name' : Text)
      → OtherKey gvk ns name gvk' ns' name'
      → stored (A.delete s gvk' ns' name').0 gvk ns name ≡ stored s gvk ns name
  pub patch_others :
      (s : S) (a : Artifact) (gvk : GroupVersionKind) (ns name : Text)
      → OtherKey gvk ns name a.gvk a.namespace a.name
      → stored (A.patch s a).0 gvk ns name ≡ stored s gvk ns name
  -- A server-side apply that forces ownership merges: each field that was sent has the value that was
  -- sent, beside what other managers own and what the server adds by default.
  pub patched :
      (s : S) (a : Artifact)
      → (A.patch s a).1 ≡ applied
      → (b : Artifact) × (stored (A.patch s a).0 a.gvk a.namespace a.name ≡ some b)
        × Includes b.spec a.spec
  -- SetControllerReference writes the owner only.
  pub owned :
      (owner : Text) (a b : Artifact)
      → A.set_owner owner a ≡ ok b
      → (b.gvk ≡ a.gvk) × (b.namespace ≡ a.namespace) × (b.name ≡ a.name) × (b.spec ≡ a.spec)

-- After a Delete there is no such artifact: it was deleted, or there was none.
abbrev pub DeletesArtifacts : {S : Type 0} → (A : ApplyClient S) → ApplyLaws A → Type 0
DeletesArtifacts {S} A L =
    (s : S) (gvk : GroupVersionKind) (ns name : Text)
    → L.stored (A.delete s gvk ns name).0 gvk ns name ≡ none
