-- ===== src/Policy/Apply/Sources.antt =====
-- The set of sources: what each round of the loops adds to it.
use token_control.Common.{
  ◌≡◌, ◌↔◌, refl, Bool, true, false, not, ◌||◌, List, [], ◌∷◌, Option, is_nil, any, All, Bool-cases,
  inl, inr, arith,
}
use token_control.Common.Sort.{Distinct}
use token_control.Text.{Text, ◌==◌}
use token_control.Text.Laws.{eq_iff, OtherText}
use token_control.Api.{ModelPermission, TokenQuota}
use token_control.Api.Policies.{ClusterTokenPolicy, TokenPolicy}
use token_control.Policy.Apply.{
  State, Level, add_source, source_if, is_set, cluster_source, policy_source, apply_cluster,
  apply_namespace_tier, apply_each,
}

-- A policy with rules or with a quota is a source.
abbrev pub contributes : List ModelPermission → Option TokenQuota → Bool
contributes models quota = not (is_nil models) || is_set quota

module _ (P : Text → Type 0) where
  any-All : (src : Text) (set : List Text) → All P set → any (λ s. src == s) set ≡ true → P src
  any-All src [] h e = absurd (ground arith)
  any-All src (s ∷ set) h e = elim (Bool-cases (src == s)) [
    | inl k ↦ rw ((eq_iff src s).0 k) h.0
    | inr k ↦ any-All src set h.1 (ground arith)
  ]

  add_source-All : (src : Text) (set : List Text) → All P (add_source src set) ↔ (P src × All P set)
  unfolding add_source
  add_source-All src set = elim (Bool-cases (any (λ s. src == s) set)) [
    | inl e ↦ rw (e, add_source) (λ h. (any-All src set h e, h), λ h. h.1)
    | inr e ↦ rw (e, add_source) (λ h. h, λ h. h)
  ]

  source_if-All :
      (b : Bool) (src : Text) (set : List Text)
      → All P (source_if b src set) ↔ ((b ≡ true → P src) × All P set)
  source_if-All true src set =
      let both = add_source-All src set in
      (λ h. let (p, k) = both.0 h in (λ _. p, k), λ h. both.1 (h.0 refl, h.1))
  source_if-All false src set = (λ h. (λ e. absurd (ground arith), h), λ h. h.1)

  two-All :
      (a b : Bool) (src : Text) (set : List Text)
      → All P (source_if a src (source_if b src set)) ↔ (((a || b) ≡ true → P src) × All P set)
  two-All a b src set =
      let outer = source_if-All a src (source_if b src set) in
      let inner = source_if-All b src set in
      (
        λ h.
            let (p, k) = outer.0 h in
            let (q, l) = inner.0 k in
            (λ e. elim (Bool-cases a) [ inl t ↦ p t | inr f ↦ q (ground arith) ], l),
        λ (p, k). outer.1 (λ e. p (ground arith), inner.1 (λ e. p (ground arith), k)),
      )

  pub cluster-sources :
      (s : State) (p : ClusterTokenPolicy)
      → All P (apply_cluster s p).source_set ↔ (
          (contributes p.spec.models p.spec.quota ≡ true → P (cluster_source p))
          × All P s.source_set)
  unfolding apply_cluster
  cluster-sources s p =
      two-All (not (is_nil p.spec.models)) (is_set p.spec.quota) (cluster_source p) s.source_set

  pub namespace-sources :
      (level : Level) (s : State) (p : TokenPolicy)
      → All P (apply_namespace_tier level s p).source_set ↔ (
          (contributes p.spec.models p.spec.quota ≡ true → P (policy_source p))
          × All P s.source_set)
  unfolding apply_namespace_tier
  namespace-sources level s p =
      let both =
        two-All (is_set p.spec.quota) (not (is_nil p.spec.models)) (policy_source p) s.source_set in
      (
        λ h. let (q, k) = both.0 h in (λ e. q (ground arith), k),
        λ (q, k). both.1 (λ e. q (ground arith), k),
      )

  pub apply_each-sources :
      {A : Type 0} (f : State → A → State) (Q : A → Type 0)
      → ((s : State) (x : A) → All P (f s x).source_set ↔ (Q x × All P s.source_set))
      → (s : State) (xs : List A)
      → All P (apply_each f s xs).source_set ↔ (All Q xs × All P s.source_set)
  unfolding apply_each
  apply_each-sources f Q one s [] = (λ h. (tt, h), λ h. h.1)
  apply_each-sources f Q one s (x ∷ xs) =
      let rest = apply_each-sources f Q one (f s x) xs in
      (
        λ h. let (qs, k) = rest.0 h in let (q, l) = (one s x).0 k in ((q, qs), l),
        λ h. rest.1 (h.0.1, (one s x).1 (h.0.0, h.1)),
      )

-- No source is in the set twice.
any-OtherText :
    (src : Text) (set : List Text) → any (λ s. src == s) set ≡ false → All (OtherText src) set
any-OtherText src [] h = tt
any-OtherText src (s ∷ set) h = (ground arith, any-OtherText src set (ground arith))

source_if-Distinct :
    (b : Bool) (src : Text) (set : List Text)
    → Distinct OtherText set
    → Distinct OtherText (source_if b src set)
unfolding add_source
source_if-Distinct false src set h = h
source_if-Distinct true src set h = elim (Bool-cases (any (λ s. src == s) set)) [
  | inl e ↦ rw (e, add_source) h
  | inr e ↦ rw (e, add_source) (any-OtherText src set e, h)
]

pub cluster-Distinct :
    (s : State) (p : ClusterTokenPolicy)
    → Distinct OtherText s.source_set
    → Distinct OtherText (apply_cluster s p).source_set
unfolding apply_cluster
cluster-Distinct s p h =
    source_if-Distinct (not (is_nil p.spec.models)) (cluster_source p) _
      (source_if-Distinct (is_set p.spec.quota) (cluster_source p) s.source_set h)

pub namespace-Distinct :
    (level : Level) (s : State) (p : TokenPolicy)
    → Distinct OtherText s.source_set
    → Distinct OtherText (apply_namespace_tier level s p).source_set
unfolding apply_namespace_tier
namespace-Distinct level s p h =
    source_if-Distinct (is_set p.spec.quota) (policy_source p) _
      (source_if-Distinct (not (is_nil p.spec.models)) (policy_source p) s.source_set h)

pub apply_each-Distinct :
    {A : Type 0} (f : State → A → State)
    → ((s : State) (x : A)
        → Distinct OtherText s.source_set
        → Distinct OtherText (f s x).source_set)
    → (s : State) (xs : List A) → Distinct OtherText s.source_set
    → Distinct OtherText (apply_each f s xs).source_set
unfolding apply_each
apply_each-Distinct f one s [] h = h
apply_each-Distinct f one s (x ∷ xs) h = apply_each-Distinct f one (f s x) xs (one s x h)
