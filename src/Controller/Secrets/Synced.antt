-- ===== src/Controller/Secrets/Synced.antt =====
-- What the loop of `Reconcile` over `syncSecret` leaves in the namespaces that it reports as synced.
use token_control.Common.{
  ◌≡◌, ◌⊎◌, ◌∙◌, sym, inl, inr, refl, true, false, ◌&&◌, ◌||◌, subst, any-append, List, [], ◌∷◌,
  ◌++◌, none, any, All, arith, Bool-cases, Option-cases,
}
use mathlib.Core.List.{append_assoc, append-nil}
use token_control.Common.Sort.{Distinct}
use token_control.Text.{Text, ◌==◌}
use token_control.Text.Laws.{eq_iff, ==_refl, OtherText}
use token_control.Api.Selector.{Labels}
use token_control.Api.Credential.{ModelCredential}
use token_control.Webhook.Cluster.{found}
use token_control.Webhook.Pod.{put}
use token_control.Controller.Replication.Agreement.{has}
use token_control.Controller.Secrets.{
  Secret, SecretClient, label_credential, managed_name, managed_content, mutate, sync_secret,
  sync_all,
}
use token_control.Controller.Secrets.Laws.{SecretLaws, Labelled, Writes}

-- The namespace has the managed Secret of the credential, with the value under the key.
abbrev pub Replica : {S : Type 0} → SecretClient S → ModelCredential → Text → S → Text → Type 0
Replica C mc value s ns =
    (x : Secret) × (C.get s ns (managed_name mc) ≡ found x)
    × (x.entries ≡ (mc.spec.secret_ref.key, value) ∷ [])
    × Labelled label_credential mc.name x

put-has :
    (l : Labels) (key value : Text) → any (λ e. e.0 == key && e.1 == value) (put l key value) ≡ true
unfolding put
put-has [] key value = rw (==_refl key, ==_refl value) refl
put-has (a ∷ l) key value = elim (Bool-cases (a.0 == key)) [
  | inl e ↦ rw (e, put, ==_refl key, ==_refl value) refl
  | inr e ↦ rw (e, put) (ground (arith, put-has l key value))
]

managed_content-Labelled :
    (operator_namespace : Text) (mc : ModelCredential) (value : Text) (x : Secret)
    → Labelled label_credential mc.name (managed_content operator_namespace mc value x)
unfolding managed_content
managed_content-Labelled operator_namespace mc value x = put-has _ label_credential mc.name

has-other :
    (ns n : Text) (rest : List Text) → All (OtherText ns) rest → has n rest ≡ true → OtherText ns n
has-other ns n [] h k = absurd (ground arith)
has-other ns n (m ∷ rest) (o, h) k = elim (Bool-cases (m == n)) [
  | inl e ↦ let same : m ≡ n = (eq_iff m n).0 e in rw (← same) o
  | inr e ↦ has-other ns n rest h (ground arith)
]

module _ {S : Type 0} (C : SecretClient S) (L : SecretLaws C) (operator_namespace : Text)
    (mc : ModelCredential) (value : Text) where
  sync_secret-Replica :
      (ns : Text) (s : S)
      → (sync_secret C operator_namespace mc ns value s).1 ≡ none
      → Replica C mc value (sync_secret C operator_namespace mc ns value s).0 ns
  unfolding sync_secret mutate managed_content
  sync_secret-Replica ns s h =
      let (old, new, made, here) = L.updated s ns (managed_name mc) _ h in
      let (labels, entries, _, _, _) = L.owned mc.name _ new made in
      (new, here, entries, rw labels (managed_content-Labelled operator_namespace mc value old))

  sync_secret-others :
      (ns ns' : Text) (s : S)
      → OtherText ns ns'
      → Replica C mc value s ns'
      → Replica C mc value (sync_secret C operator_namespace mc ns value s).0 ns'
  unfolding sync_secret
  sync_secret-others ns ns' s o (x, here, entries, labelled) = (
    x,
    L.update_others s ns (managed_name mc) _ ns' (managed_name mc)
          (inl (λ e. ground (arith, ==_refl ns)))
        ∙ here,
    entries,
    labelled,
  )

  -- The rounds of the loop, by the answer to `syncSecret`.
  sync_all-next :
      (ns : Text) (rest : List Text) (s : S) (synced : List Text)
      → ((sync_secret C operator_namespace mc ns value s).1 ≡ none)
          × (sync_all C operator_namespace mc value (ns ∷ rest) s synced
              ≡ sync_all C operator_namespace mc value rest
                  (sync_secret C operator_namespace mc ns value s).0
                  (synced ++ (ns ∷ [])))
        ⊎ (sync_all C operator_namespace mc value (ns ∷ rest) s synced
            ≡ sync_all C operator_namespace mc value rest
                (sync_secret C operator_namespace mc ns value s).0
                synced)
  unfolding sync_all
  sync_all-next ns rest s synced =
      elim (Option-cases (sync_secret C operator_namespace mc ns value s).1) [
        | inl e ↦ inl (e, rw (e, sync_all) refl)
        | inr (x, e) ↦ inr (rw (e, sync_all) refl)
      ]

  pub sync_all-Replica :
      (nss : List Text) (s : S) (synced : List Text)
      → Distinct OtherText nss
      → ((n : Text) → has n synced ≡ true → has n nss ≡ false)
      → ((n : Text) → has n synced ≡ true → Replica C mc value s n)
      → (n : Text) → has n (sync_all C operator_namespace mc value nss s synced).1 ≡ true
      → Replica C mc value (sync_all C operator_namespace mc value nss s synced).0 n
  unfolding sync_all
  sync_all-Replica [] s synced d fresh known n h = known n h
  sync_all-Replica (ns ∷ rest) s synced (o, d) fresh known n h =
      elim (sync_all-next ns rest s synced) [
        | inl (done, e) ↦
            rw e (sync_all-Replica rest _ (synced ++ (ns ∷ [])) d added (made done) n (rw e at h))
        | inr e ↦
            rw e (
              sync_all-Replica rest _ synced d (λ m k. ground (arith, fresh m k)) kept n
                (rw e at h))
      ]
    where
      kept :
          (m : Text)
          → has m synced ≡ true
          → Replica C mc value (sync_secret C operator_namespace mc ns value s).0 m
      kept m k = sync_secret-others ns m s (ground (arith, fresh m k)) (known m k)

      made :
          (sync_secret C operator_namespace mc ns value s).1 ≡ none
          → (m : Text) → has m (synced ++ (ns ∷ [])) ≡ true
          → Replica C mc value (sync_secret C operator_namespace mc ns value s).0 m
      made done m k = elim (Bool-cases (has m synced)) [
        | inl e ↦ kept m e
        | inr e ↦
            let same : ns ≡ m =
              (eq_iff ns m).0 (ground (arith, any-append (λ k. k == m) synced (ns ∷ []))) in
            subst (Replica C mc value _) same (sync_secret-Replica ns s done)
      ]

      added : (m : Text) → has m (synced ++ (ns ∷ [])) ≡ true → has m rest ≡ false
      added m k = elim (Bool-cases (has m rest)) [
        | inr e ↦ e
        | inl e ↦
            ground
              (arith, has-other ns m rest o e, fresh m, any-append (λ k. k == m) synced (ns ∷ []))
      ]

  pub sync_all-visited :
      (nss : List Text) (s : S) (synced : List Text) (n : Text)
      → has n (sync_all C operator_namespace mc value nss s synced).1 ≡ true
      → (has n synced || has n nss) ≡ true
  unfolding sync_all
  sync_all-visited [] s synced n h = ground arith
  sync_all-visited (ns ∷ rest) s synced n h = elim (sync_all-next ns rest s synced) [
    | inl (done, e) ↦ ground (
      arith,
      sync_all-visited rest _ (synced ++ (ns ∷ [])) n (rw e at h),
      any-append (λ k. k == n) synced (ns ∷ []),
    )
    | inr e ↦ ground (arith, sync_all-visited rest _ synced n (rw e at h))
  ]

  sync_secret-done :
      (ns : Text) (s : S) → Writes C → (sync_secret C operator_namespace mc ns value s).1 ≡ none
  unfolding sync_secret mutate managed_content
  sync_secret-done ns s (owns, writes) = writes s ns (managed_name mc) _ (λ x.
      let (y, e) = owns mc.name (managed_content operator_namespace mc value x) in
      let (_, _, _, same_ns, same_name) = L.owned mc.name _ y e in (y, e, same_ns, same_name))

  pub sync_all_complete :
      (nss : List Text) (s : S) (synced : List Text)
      → Writes C
      → (sync_all C operator_namespace mc value nss s synced).1 ≡ synced ++ nss
  unfolding sync_all
  sync_all_complete [] s synced w = sym (append-nil synced)
  sync_all_complete (ns ∷ rest) s synced w =
      rw (sync_secret-done ns s w, sync_all)
        (sync_all_complete rest _ (synced ++ (ns ∷ [])) w ∙ append_assoc synced (ns ∷ []) rest)
