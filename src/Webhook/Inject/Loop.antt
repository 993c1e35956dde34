-- ===== src/Webhook/Inject/Loop.antt =====
-- The two loops of `PodDefaulter`: the credentials in order, and their injection.
use token_control.Common.{
  ◌≡◌, inl, inr, refl, Bool, true, false, not, ◌&&◌, List, [], ◌∷◌, any, Some, All, All-append,
  arith, Bool-cases,
}
use token_control.Common.Result.{ok, err, ◌>>=◌, >>=-returns}
use token_control.Text.{Text, ◌==◌, non_empty}
use token_control.Api.Selector.{LabelSelectors}
use token_control.Api.Credential.{ModelCredential}
use token_control.Policy.Effective.{Effective, permit}
use token_control.Webhook.Cluster.{found, not_found, failed, Fetch, Client, credential_authorizes}
use token_control.Webhook.Declared.{DeclaredModel}
use token_control.Webhook.Deliver.{inject_credential}
use token_control.Webhook.Deliver.Kept.{
  PodKeeps, PodKeeps-refl, PodKeeps-trans, inject_credential-PodKeeps,
}
use token_control.Webhook.Inject.{
  append_new, credential_for, cred_order, Bound, bind_if, bind_one, bind_all,
}

-- A declared model is permitted, with the credential.
abbrev pub Asks : Effective → Text → DeclaredModel → Type 0
Asks e name d =
    ((permit e d.provider d.model).allowed ≡ true)
    × (credential_for (permit e d.provider d.model) d ≡ name)

append_new-All :
    (P : Text → Type 0) (order : List Text) (cred : Text)
    → P cred
    → All P order
    → All P (append_new order cred)
append_new-All P order cred p h =
    elim (Bool-cases (non_empty cred && not (any (λ s. s == cred) order))) [
      | inl e ↦ rw e (All-append P order (cred ∷ []) h (p, tt))
      | inr e ↦ rw e h
    ]

module _ (P : Text → Type 0) (e : Effective) where
  pub cred_order-All :
      (ds : List DeclaredModel) (order : List Text)
      → All P order
      → ((name : Text) → Some (Asks e name) ds → P name)
      → All P (cred_order e order ds)
  unfolding cred_order
  cred_order-All [] order h f = h
  cred_order-All (d ∷ ds) order h f = elim (Bool-cases (permit e d.provider d.model).allowed) [
    | inr k ↦ rw k (cred_order-All ds order h (λ name s. f name (inr s)))
    | inl k ↦
        let cred : Text = credential_for (permit e d.provider d.model) d in
        rw k (
          cred_order-All ds (append_new order cred)
            (append_new-All P order cred (f cred (inl (k, refl))) h) (λ name s. f name (inr s)))
  ]

module _ (K : LabelSelectors) (c : Client) (namespace : Text) where
  -- The credential exists, and the namespace may bind it.
  abbrev pub IsAuthorized : Text → Type 0
  IsAuthorized name =
      (mc : ModelCredential) × (c.get_credential name ≡ found mc)
      × (credential_authorizes K c mc namespace ≡ ok true)

  -- The pod keeps what it had, and new credentials have the property.
  abbrev pub Grows : (Text → Type 0) → Bound → Bound → Type 0
  Grows P b b' = PodKeeps b.pod b'.pod × (All P b.bound → All P b'.bound)

  Grows-refl : (P : Text → Type 0) (b : Bound) → Grows P b b
  Grows-refl P b = (PodKeeps-refl b.pod, λ h. h)

  bind_if-Grows :
      (P : Text → Type 0) (authorized : Bool) (name : Text) (mc : ModelCredential) (b : Bound)
      → (authorized ≡ true → P name)
      → Grows P b (bind_if authorized name mc b)
  bind_if-Grows P false name mc b f = Grows-refl P b
  bind_if-Grows P true name mc b f = (inject_credential-PodKeeps b.pod mc, bound)
    where
      bound : All P b.bound → All P (bind_if true name mc b).bound
      bound h = elim (Bool-cases (inject_credential b.pod mc).1) [
        | inl e ↦ rw e (All-append P b.bound (name ∷ []) h (f refl, tt))
        | inr e ↦ rw e h
      ]

  bind_one-Grows :
      (P : Text → Type 0) (name : Text) (b b' : Bound)
      → bind_one K c namespace name b ≡ ok b'
      → (IsAuthorized name → P name)
      → Grows P b b'
  unfolding bind_one
  bind_one-Grows P name b b' h f = go (c.get_credential name) refl h
    where
      go :
          (r : Fetch ModelCredential)
          → c.get_credential name ≡ r
          → elim r [
            | not_found ↦ ok b
            | failed e ↦ err e
            | found mc ↦ credential_authorizes K c mc namespace >>= λ authorized.
                ok (bind_if authorized name mc b)
          ]
            ≡ ok b'
          → Grows P b b'
      go not_found e k = let same : b ≡ b' = ground arith in rw (← same) (Grows-refl P b)
      go (failed x) e k = absurd (ground arith)
      go (found mc) e k =
          let (authorized, ha, hb) = >>=-returns (credential_authorizes K c mc namespace) _ k in
          let same : bind_if authorized name mc b ≡ b' = ground arith in
          rw (← same) (bind_if-Grows P authorized name mc b (λ t. f (mc, e, rw (← t) ha)))

  pub bind_all-Grows :
      (P : Text → Type 0) (names : List Text) (b b' : Bound)
      → bind_all K c namespace names b ≡ ok b'
      → All (λ name. IsAuthorized name → P name) names
      → Grows P b b'
  unfolding bind_all
  bind_all-Grows P [] b b' h f = let same : b ≡ b' = ground arith in rw (← same) (Grows-refl P b)
  bind_all-Grows P (name ∷ names) b b' h (p, f) =
      let (next, h1, h2) = >>=-returns (bind_one K c namespace name b) _ h in
      let first = bind_one-Grows P name b next h1 p in
      let later = bind_all-Grows P names next b' h2 f in
      (PodKeeps-trans b.pod next.pod b'.pod first.0 later.0, λ k. later.1 (first.1 k))
