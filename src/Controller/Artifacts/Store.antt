-- ===== src/Controller/Artifacts/Store.antt =====
-- A map of artifacts by their keys as the state of a client that has the assumed laws.
use token_control.Common.{◌≡◌, refl, Bool, true, ◌&&◌, Option, none, some, if◌then◌else◌, arith}
use token_control.Common.Result.{ok}
use token_control.Text.{Text, ◌==◌}
use token_control.Text.Laws.{==_refl}
use token_control.Gateway.{GroupVersionKind, Artifact}
use token_control.Gateway.Includes.{Includes, Includes-refl}
use token_control.Controller.Artifacts.{applied, ApplyClient, same_gvk}
use token_control.Controller.Artifacts.Laws.{OtherKey, ApplyLaws, DeletesArtifacts}

abbrev pub Store : Type 0
Store = GroupVersionKind → Text → Text → Option Artifact

abbrev pub at : GroupVersionKind → Text → Text → GroupVersionKind → Text → Text → Bool
at gvk ns name gvk' ns' name' = same_gvk gvk gvk' && (ns == ns' && name == name')

abbrev pub write : Store → GroupVersionKind → Text → Text → Option Artifact → Store
write s gvk' ns' name' o gvk ns name = if at gvk ns name gvk' ns' name' then o else s gvk ns name

unfoldable pub store : ApplyClient Store
store = record {
  delete = λ s gvk ns name. (write s gvk ns name none, none);
  patch = λ s a. (write s a.gvk a.namespace a.name (some a), applied);
  set_owner = λ owner a. ok a;
}

at_refl : (gvk : GroupVersionKind) (ns name : Text) → at gvk ns name gvk ns name ≡ true
unfolding same_gvk
at_refl gvk ns name =
    ground
      (arith, ==_refl gvk.group, ==_refl gvk.version, ==_refl gvk.kind, ==_refl ns, ==_refl name)

pub write_others :
    (s : Store) (gvk gvk' : GroupVersionKind) (ns name ns' name' : Text) (o : Option Artifact)
    → OtherKey gvk ns name gvk' ns' name'
    → write s gvk' ns' name' o gvk ns name ≡ s gvk ns name
write_others s gvk gvk' ns name ns' name' o h = rw h refl

write_self :
    (s : Store) (gvk : GroupVersionKind) (ns name : Text) (o : Option Artifact)
    → write s gvk ns name o gvk ns name ≡ o
write_self s gvk ns name o = rw (at_refl gvk ns name) refl

pub store-patched :
    (s : Store) (a : Artifact)
    → (b : Artifact) × ((store.patch s a).0 a.gvk a.namespace a.name ≡ some b)
      × Includes b.spec a.spec
unfolding store
store-patched s a = (a, write_self s a.gvk a.namespace a.name (some a), Includes-refl a.spec)

pub store-owned :
    (owner : Text) (a b : Artifact)
    → store.set_owner owner a ≡ ok b
    → (b.gvk ≡ a.gvk) × (b.namespace ≡ a.namespace) × (b.name ≡ a.name) × (b.spec ≡ a.spec)
unfolding store
store-owned owner a b h = ground arith

unfoldable pub store-ApplyLaws : ApplyLaws store
unfolding store
store-ApplyLaws = record {
  stored = λ s. s;
  delete_others =
      λ s gvk gvk' ns name ns' name' h. write_others s gvk gvk' ns name ns' name' none h;
  patch_others =
      λ s a gvk ns name h. write_others s gvk a.gvk ns name a.namespace a.name (some a) h;
  patched = λ s a h. store-patched s a;
  owned = store-owned;
}

pub store-DeletesArtifacts : DeletesArtifacts store store-ApplyLaws
unfolding store store-ApplyLaws
store-DeletesArtifacts s gvk ns name = write_self s gvk ns name none
