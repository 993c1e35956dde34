-- ===== src/Controller/Secrets/Laws.antt =====
-- What is assumed of the client of Secrets: what the API server documents of its verbs.
use token_control.Common.{◌≡◌, ◌≢◌, ◌⊎◌, ◌&&◌, true, none, All, Some, List, any}
use token_control.Common.Result.{Result, ok}
use token_control.Text.{Text, ◌==◌}
use token_control.Webhook.Cluster.{found, not_found}
use token_control.Controller.Secrets.{Secret, Deletion, deleted, gone, refused, SecretClient}

-- The Delete left no Secret of that namespace and name.
abbrev pub Removed : Deletion → Type 0
Removed deleted = Unit
Removed gone = Unit
Removed (refused e) = ⊥

-- The Secret has the label with the value.
abbrev pub Labelled : Text → Text → Secret → Type 0
Labelled key value x = any (λ l. l.0 == key && l.1 == value) x.labels ≡ true

pub record SecretLaws {S : Type 0} (C : SecretClient S) : Type 0 where
  -- A Get returns the Secret of the namespace and name.
  pub get_key :
      (s : S) (ns name : Text) (x : Secret)
      → C.get s ns name ≡ found x
      → (x.namespace ≡ ns) × (x.name ≡ name)
  -- A CreateOrUpdate without an error leaves the Secret as the mutation made it.
  pub updated :
      (s : S) (ns name : Text) (f : Secret → Result Text Secret)
      → (C.create_or_update s ns name f).1 ≡ none
      → (old new : Secret) × (f old ≡ ok new)
        × (C.get (C.create_or_update s ns name f).0 ns name ≡ found new)
  -- It touches no other Secret.
  pub update_others :
      (s : S) (ns name : Text) (f : Secret → Result Text Secret) (ns' name' : Text)
      → (ns' ≢ ns) ⊎ (name' ≢ name)
      → C.get (C.create_or_update s ns name f).0 ns' name' ≡ C.get s ns' name'
  -- A List by a label returns every Secret that has the label with the value, and no other.
  pub listed :
      (s : S) (key value : Text) (xs : List Secret) (x : Secret)
      → C.list s key value ≡ ok xs
      → C.get s x.namespace x.name ≡ found x
      → Labelled key value x
      → Some (λ y. y ≡ x) xs
  pub listed_only :
      (s : S) (key value : Text) (xs : List Secret)
      → C.list s key value ≡ ok xs
      → All (λ x. (C.get s x.namespace x.name ≡ found x) × Labelled key value x) xs
  -- A Delete that succeeds, or finds nothing, leaves no such Secret; it touches no other.
  pub removed :
      (s : S) (x : Secret)
      → Removed (C.delete s x).1
      → C.get (C.delete s x).0 x.namespace x.name ≡ not_found
  pub delete_others :
      (s : S) (x : Secret) (ns name : Text)
      → (ns ≢ x.namespace) ⊎ (name ≢ x.name)
      → C.get (C.delete s x).0 ns name ≡ C.get s ns name
  -- SetControllerReference writes the owner only.
  pub owned :
      (owner : Text) (x y : Secret)
      → C.set_owner owner x ≡ ok y
      → (y.labels ≡ x.labels)
        × (y.entries ≡ x.entries)
        × (y.kind ≡ x.kind)
        × (y.namespace ≡ x.namespace)
        × (y.name ≡ x.name)

-- The List and each Delete succeed.
abbrev pub Deletes : {S : Type 0} → SecretClient S → Type 0
Deletes {S} C =
    ((s : S) (key value : Text) → (xs : List Secret) × (C.list s key value ≡ ok xs))
    × ((s : S) (x : Secret) → Removed (C.delete s x).1)

-- Each SetControllerReference succeeds, and each CreateOrUpdate by a mutation that does not fail and
-- that keeps the namespace and the name.
abbrev pub Writes : {S : Type 0} → SecretClient S → Type 0
Writes {S} C =
    ((owner : Text) (x : Secret) → (y : Secret) × (C.set_owner owner x ≡ ok y))
    × ((s : S) (ns name : Text) (f : Secret → Result Text Secret)
        → ((x : Secret)
            → (y : Secret) × (f x ≡ ok y) × (y.namespace ≡ x.namespace) × (y.name ≡ x.name))
        → (C.create_or_update s ns name f).1 ≡ none)
