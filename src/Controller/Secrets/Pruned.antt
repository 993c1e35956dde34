-- ===== src/Controller/Secrets/Pruned.antt =====
-- What `pruneSecrets` deletes, and what it keeps.
use token_control.Common.{
  ◌≡◌, ◌≢◌, ◌⊎◌, ◌∙◌, sym, ap, subst, inl, inr, refl, Bool, true, false, List, [], ◌∷◌, none, some,
  any, Some, All, arith, Bool-cases,
}
use token_control.Common.Result.{Result-cases}
use token_control.Text.{Text, ◌==◌}
use token_control.Text.Laws.{eq_iff}
use token_control.Api.Credential.{ModelCredential}
use token_control.Webhook.Cluster.{found, not_found}
use token_control.Controller.Secrets.{
  Secret, Deletion, deleted, gone, refused, SecretClient, label_credential, prune_listed,
  prune_secrets,
}
use token_control.Controller.Secrets.Laws.{SecretLaws, Removed, Labelled, Deletes}

abbrev pub authorizes : List Text → Text → Bool
authorizes authorized ns = any (λ n. n == ns) authorized

module _ {S : Type 0} (C : SecretClient S) (L : SecretLaws C) where
  -- A key is that of the Secret, or it is another.
  same_key :
      (x : Secret) (ns name : Text)
      → ((ns ≡ x.namespace) × (name ≡ x.name)) ⊎ ((ns ≢ x.namespace) ⊎ (name ≢ x.name))
  same_key x ns name = elim (Bool-cases (ns == x.namespace)) [
    | inr e ↦ inr (inl (ground (arith, eq_iff ns x.namespace)))
    | inl e ↦ elim (Bool-cases (name == x.name)) [
      | inr f ↦ inr (inr (ground (arith, eq_iff name x.name)))
      | inl f ↦ inl ((eq_iff ns x.namespace).0 e, (eq_iff name x.name).0 f)
    ]
  ]

  -- No Delete that succeeds creates or changes a Secret.
  delete-shrinks :
      (s : S) (x y : Secret) (ns name : Text)
      → Removed (C.delete s x).1
      → C.get (C.delete s x).0 ns name ≡ found y
      → C.get s ns name ≡ found y
  delete-shrinks s x y ns name ok_ h = elim (same_key x ns name) [
    | inr other ↦ rw (← L.delete_others s x ns name other) h
    | inl (e, f) ↦
        let none_left : C.get (C.delete s x).0 ns name ≡ not_found =
          rw (e, f) (L.removed s x ok_) in
        absurd (ground arith)
  ]

  -- The rounds of the loop, by what they find.
  data Round (authorized : List Text) (x : Secret) (xs : List Secret) (s : S) : Type 0 where
    skip :
        authorizes authorized x.namespace ≡ true
        → prune_listed C authorized (x ∷ xs) s ≡ prune_listed C authorized xs s
        → Round authorized x xs s
    next :
        authorizes authorized x.namespace ≡ false
        → Removed (C.delete s x).1
        → prune_listed C authorized (x ∷ xs) s ≡ prune_listed C authorized xs (C.delete s x).0
        → Round authorized x xs s
    stop :
        (e : Text)
        → authorizes authorized x.namespace ≡ false
        → (C.delete s x).1 ≡ refused e
        → prune_listed C authorized (x ∷ xs) s ≡ ((C.delete s x).0, some e)
        → Round authorized x xs s

  Deletion-cases : (d : Deletion) → (d ≡ deleted) ⊎ ((d ≡ gone) ⊎ ((e : Text) × (d ≡ refused e)))
  Deletion-cases deleted = inl refl
  Deletion-cases gone = inr (inl refl)
  Deletion-cases (refused e) = inr (inr (e, refl))

  round : (authorized : List Text) (x : Secret) (xs : List Secret) (s : S) → Round authorized x xs s
  unfolding prune_listed
  round authorized x xs s = elim (Bool-cases (authorizes authorized x.namespace)) [
    | inl a ↦ skip a (rw (a, prune_listed) refl)
    | inr a ↦ elim (Deletion-cases (C.delete s x).1) [
      | inl d ↦ next a (rw d tt) (rw (a, d, prune_listed) refl)
      | inr (inl d) ↦ next a (rw d tt) (rw (a, d, prune_listed) refl)
      | inr (inr (e, d)) ↦ stop e a d (rw (a, d, prune_listed) refl)
    ]
  ]

  -- The key is none of those that the loop is to delete.
  abbrev Spared : List Text → Text → Text → List Secret → Type 0
  Spared authorized ns name =
      All (λ x. authorizes authorized x.namespace ≡ false → (ns ≢ x.namespace) ⊎ (name ≢ x.name))

  -- Where every Delete succeeds, what is left was there before, and was none of those to delete.
  prune_listed-left :
      (authorized : List Text) (xs : List Secret) (s : S) (ns name : Text) (y : Secret)
      → (prune_listed C authorized xs s).1 ≡ none
      → C.get (prune_listed C authorized xs s).0 ns name ≡ found y
      → (C.get s ns name ≡ found y) × Spared authorized ns name xs
  unfolding prune_listed
  prune_listed-left authorized [] s ns name y h k = (k, tt)
  prune_listed-left authorized (x ∷ xs) s ns name y h k = elim (round authorized x xs s) [
    | skip a e ↦
        let (old, others) = prune_listed-left authorized xs s ns name y (rw e at h) (rw e at k) in
        (old, ((λ no. absurd (ground arith)), others))
    | next a r e ↦
        let (left, others) =
          prune_listed-left authorized xs (C.delete s x).0 ns name y (rw e at h) (rw e at k) in
        (delete-shrinks s x y ns name r left, ((λ no. other left r), others))
    | stop t a f e ↦ absurd (ground arith)
  ]
    where
      other :
          C.get (C.delete s x).0 ns name ≡ found y
          → Removed (C.delete s x).1
          → (ns ≢ x.namespace) ⊎ (name ≢ x.name)
      other left r = elim (same_key x ns name) [
        | inr o ↦ o
        | inl (e, f) ↦
            let none_left : C.get (C.delete s x).0 ns name ≡ not_found =
              rw (e, f) (L.removed s x r) in
            absurd (ground arith)
      ]

  -- Whatever the Deletes answer, a Secret that is none of those to delete stays.
  prune_listed-keeps :
      (authorized : List Text) (xs : List Secret) (s : S) (ns name : Text)
      → Spared authorized ns name xs
      → C.get (prune_listed C authorized xs s).0 ns name ≡ C.get s ns name
  unfolding prune_listed
  prune_listed-keeps authorized [] s ns name h = refl
  prune_listed-keeps authorized (x ∷ xs) s ns name (p, h) = elim (round authorized x xs s) [
    | skip a e ↦ rw e (prune_listed-keeps authorized xs s ns name h)
    | next a r e ↦ rw e (
        prune_listed-keeps authorized xs (C.delete s x).0 ns name h
        ∙ L.delete_others s x ns name (p a))
    | stop t a f e ↦ rw e (L.delete_others s x ns name (p a))
  ]

  not-Spared :
      (authorized : List Text) (xs : List Secret) (y : Secret)
      → Spared authorized y.namespace y.name xs
      → Some (λ x. x ≡ y) xs
      → authorizes authorized y.namespace ≡ true
  not-Spared authorized [] y h s = absurd s
  not-Spared authorized (x ∷ xs) y (p, h) (inl e) =
      elim (Bool-cases (authorizes authorized y.namespace)) [
        | inl a ↦ a
        | inr a ↦ elim (p (rw e a)) [
          | inl n ↦ absurd (n (rw e refl))
          | inr n ↦ absurd (n (rw e refl))
        ]
      ]
  not-Spared authorized (x ∷ xs) y (p, h) (inr s) = not-Spared authorized xs y h s

  -- A Secret that no List of the label returns, or of an authorized namespace, is spared.
  Spared-of :
      (authorized : List Text) (label value : Text) (s : S) (ns name : Text) (y : Secret)
      (xs : List Secret)
      → C.get s ns name ≡ found y
      → (authorizes authorized ns ≡ true) ⊎ (¬ Labelled label value y)
      → All (λ x. (C.get s x.namespace x.name ≡ found x) × Labelled label value x) xs
      → Spared authorized ns name xs
  Spared-of authorized label value s ns name y [] h w k = tt
  Spared-of authorized label value s ns name y (x ∷ xs) h w ((here, l), k) =
      ((λ a. other a), Spared-of authorized label value s ns name y xs h w k)
    where
      other : authorizes authorized x.namespace ≡ false → (ns ≢ x.namespace) ⊎ (name ≢ x.name)
      other a = elim (same_key x ns name) [
        | inr o ↦ o
        | inl (e, f) ↦
            let same : found y ≡ found x = sym h ∙ rw (e, f) here in
            let eq : y ≡ x = ground arith in
            elim w [ inl b ↦ absurd (ground (arith, e)) | inr n ↦ absurd (n (rw eq l)) ]
      ]

  -- Where the prune of a credential succeeds, each Secret that carries the label of the credential is
  -- in an authorized namespace.
  pub prune_secrets-authorizes :
      (mc : ModelCredential) (authorized : List Text) (s : S) (ns name : Text) (y : Secret)
      → (prune_secrets C mc authorized s).1 ≡ none
      → C.get (prune_secrets C mc authorized s).0 ns name ≡ found y
      → Labelled label_credential mc.name y
      → authorizes authorized ns ≡ true
  unfolding prune_secrets
  prune_secrets-authorizes mc authorized s ns name y h k l =
      elim (Result-cases (C.list s label_credential mc.name)) [
        | inr (x, e) ↦ absurd (ground (arith, (rw (e, prune_secrets) at h)))
        | inl (xs, e) ↦
            let (old, spared) =
              prune_listed-left authorized xs s ns name y (rw (e, prune_secrets) at h)
                (rw (e, prune_secrets) at k) in
            let (same_ns, same_name) = L.get_key s ns name y old in
            let here : C.get s y.namespace y.name ≡ found y =
              ap (λ n. C.get s n y.name) same_ns ∙ (ap (C.get s ns) same_name ∙ old) in
            subst (λ n. authorizes authorized n ≡ true) same_ns
              (not-Spared authorized xs y
                (subst (λ n. Spared authorized n y.name xs) (sym same_ns)
                  (subst (λ n. Spared authorized ns n xs) (sym same_name) spared))
                (L.listed s label_credential mc.name xs y e here l))
      ]

  -- Whatever the client answers, the prune keeps each Secret of an authorized namespace, and each that
  -- does not carry the label of the credential.
  pub prune_secrets-keeps :
      (mc : ModelCredential) (authorized : List Text) (s : S) (ns name : Text) (y : Secret)
      → C.get s ns name ≡ found y
      → (authorizes authorized ns ≡ true) ⊎ (¬ Labelled label_credential mc.name y)
      → C.get (prune_secrets C mc authorized s).0 ns name ≡ found y
  unfolding prune_secrets
  prune_secrets-keeps mc authorized s ns name y h w =
      elim (Result-cases (C.list s label_credential mc.name)) [
        | inr (x, e) ↦ rw (e, prune_secrets) h
        | inl (xs, e) ↦
            rw (e, prune_secrets)
              (prune_listed-keeps authorized xs s ns name (
                  Spared-of authorized label_credential mc.name s ns name y xs h w
                    (L.listed_only s label_credential mc.name xs e))
                ∙ h)
      ]

  prune_listed-done :
      (authorized : List Text) (xs : List Secret) (s : S)
      → Deletes C
      → (prune_listed C authorized xs s).1 ≡ none
  unfolding prune_listed
  prune_listed-done authorized [] s d = refl
  prune_listed-done authorized (x ∷ xs) s d = elim (round authorized x xs s) [
    | skip a e ↦ rw e (prune_listed-done authorized xs s d)
    | next a r e ↦ rw e (prune_listed-done authorized xs (C.delete s x).0 d)
    | stop t a f e ↦ absurd (rw f at (d.1 s x))
  ]

  pub prune_secrets-done :
      (mc : ModelCredential) (authorized : List Text) (s : S)
      → Deletes C
      → (prune_secrets C mc authorized s).1 ≡ none
  unfolding prune_secrets
  prune_secrets-done mc authorized s d =
      let (xs, e) = d.0 s label_credential mc.name in
      rw (e, prune_secrets) (prune_listed-done authorized xs s d)
