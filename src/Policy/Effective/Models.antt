-- ===== src/Policy/Effective/Models.antt =====
-- `EffectiveModels`: which models are listed, and with which verdict.
use token_control.Common.{
  ◌≡◌, ◌↔◌, ◌∙◌, inl, inr, refl, ap, Bool, true, false, not, ◌&&◌, ◌||◌, List, [], ◌∷◌, ◌++◌, map,
  any, any-append, All, All-append, arith, if◌then◌else◌, Bool-cases,
}
use token_control.Common.Sort.{Distinct}
use token_control.Text.{Text, ◌==◌, to_lower}
use token_control.Text.Laws.{eq_iff}
use token_control.Api.{PermissionAction, EffectiveModel}
use token_control.Policy.Tier.{SourcedRule, allows}
use token_control.Policy.Tier.Verdicts.{Forbids}
use token_control.Policy.Effective.{
  Effective, Entry, entry_of, same_key, collect, action_of, permit, effective_model,
  effective_models,
}
use token_control.Policy.Effective.Permission.{permit-allowed_iff}

abbrev OtherKey : Entry → Entry → Type 0
OtherKey a b = same_key a b ≡ false

-- The entry is for a provider and a model.
abbrev at_key : Text → Text → Entry → Bool
at_key p m k = k.provider == p && k.model == m

abbrev next : List Entry → SourcedRule → List Entry
next order r =
    if allows r && not (any (same_key (entry_of r)) order)
    then order ++ (entry_of r ∷ [])
    else order

-- An Allow rule that names the provider and the model, up to case.
abbrev pub names : Text → Text → SourcedRule → Bool
names p m r = allows r && (to_lower r.rule.provider == p && to_lower r.rule.model == m)

at_key-any :
    (p m : Text) (x : Entry) (order : List Entry)
    → any (same_key x) order ≡ true
    → at_key p m x ≡ true
    → any (at_key p m) order ≡ true
at_key-any p m x [] h k = absurd (ground arith)
at_key-any p m x (d ∷ order) h k = elim (Bool-cases (same_key x d)) [
  | inl e ↦
      let q : x.provider ≡ d.provider = (eq_iff x.provider d.provider).0 (ground arith) in
      let n : x.model ≡ d.model = (eq_iff x.model d.model).0 (ground arith) in
      let here : at_key p m d ≡ true = rw (← q, ← n) k in ground arith
  | inr e ↦ ground (arith, at_key-any p m x order)
]

any-next :
    (p m : Text) (order : List Entry) (r : SourcedRule)
    → any (at_key p m) (next order r) ≡ (any (at_key p m) order || names p m r)
any-next p m order r = elim (Bool-cases (allows r && not (any (same_key (entry_of r)) order))) [
  | inl e ↦ rw (e, any-append (at_key p m) order (entry_of r ∷ [])) (ground arith)
  | inr e ↦ rw e (ground (arith, at_key-any p m (entry_of r) order))
]

same_key_symm : (a b : Entry) → same_key a b ≡ false → same_key b a ≡ false
same_key_symm a b h = ground (
  arith,
  eq_iff a.provider b.provider,
  eq_iff b.provider a.provider,
  eq_iff a.model b.model,
  eq_iff b.model a.model,
)

Distinct-last :
    (x : Entry) (order : List Entry)
    → any (same_key x) order ≡ false
    → Distinct OtherKey order
    → Distinct OtherKey (order ++ (x ∷ []))
Distinct-last x [] h k = (tt, tt)
Distinct-last x (d ∷ order) h (p, k) = (
  All-append (OtherKey d) order (x ∷ []) p (same_key_symm x d (ground arith), tt),
  Distinct-last x order (ground arith) k,
)

Distinct-next :
    (order : List Entry) (r : SourcedRule)
    → Distinct OtherKey order
    → Distinct OtherKey (next order r)
Distinct-next order r h = elim (Bool-cases (allows r && not (any (same_key (entry_of r)) order))) [
  | inl e ↦ rw e (Distinct-last (entry_of r) order (ground arith) h)
  | inr e ↦ rw e h
]

collect-Distinct :
    (order : List Entry) (rs : List SourcedRule)
    → Distinct OtherKey order
    → Distinct OtherKey (collect order rs)
unfolding collect
collect-Distinct order [] h = h
collect-Distinct order (r ∷ rs) h = collect-Distinct (next order r) rs (Distinct-next order r h)

any-collect :
    (p m : Text) (order : List Entry) (rs : List SourcedRule)
    → any (at_key p m) (collect order rs) ≡ (any (at_key p m) order || any (names p m) rs)
unfolding collect
any-collect p m order [] = ground arith
any-collect p m order (r ∷ rs) =
    any-collect p m (next order r) rs ∙ rw (any-next p m order r) (ground arith)

-- Two entries of the status that differ in the provider or the model.
abbrev pub OtherModel : EffectiveModel → EffectiveModel → Type 0
OtherModel a b = (a.provider == b.provider && a.model == b.model) ≡ false

-- The verdict of an entry is that of the hierarchy: Allow exactly when no tier forbids the model, and
-- otherwise Deny; with the credential that `Permit` gives.
abbrev pub Reports : Effective → EffectiveModel → Type 0
Reports e x =
    ((x.action ≡ PermissionAction.allow) ↔ (
      (¬ Forbids e.cluster x.provider x.model)
      × (¬ Forbids e.ns x.provider x.model)
      × (¬ Forbids e.wl x.provider x.model)))
    × (x.action ≡ action_of (permit e x.provider x.model).allowed)
    × (x.credential ≡ (permit e x.provider x.model).credential)

module _ (e : Effective) where
  Distinct-models :
      (ks : List Entry) → Distinct OtherKey ks → Distinct OtherModel (map (effective_model e) ks)
  unfolding effective_model
  Distinct-models [] h = tt
  Distinct-models (k ∷ ks) (p, h) = (others ks p, Distinct-models ks h)
    where
      others :
          (xs : List Entry)
          → All (OtherKey k) xs
          → All (OtherModel (effective_model e k)) (map (effective_model e) xs)
      others [] h = tt
      others (x ∷ xs) (q, h) = (q, others xs h)

  any-models :
      (p m : Text) (ks : List Entry)
      → any (λ x. x.provider == p && x.model == m) (map (effective_model e) ks)
        ≡ any (at_key p m) ks
  unfolding effective_model
  any-models p m [] = refl
  any-models p m (k ∷ ks) = ap (λ b. at_key p m k || b) (any-models p m ks)

  action-allow : (b : Bool) → (action_of b ≡ PermissionAction.allow) ↔ (b ≡ true)
  action-allow b = ground arith

  models-Reports : (ks : List Entry) → All (Reports e) (map (effective_model e) ks)
  unfolding effective_model
  models-Reports [] = tt
  models-Reports (k ∷ ks) =
      let allowed = (permit e k.provider k.model).allowed in
      let iff = permit-allowed_iff e k.provider k.model in
      (
        (
          (λ h. iff.0 ((action-allow allowed).0 h), λ h. (action-allow allowed).1 (iff.1 h)),
          refl,
          refl,
        ),
        models-Reports ks,
      )

  -- No provider and model is listed twice; they are listed exactly where an Allow rule of a tier
  -- names them, in lower case; and each entry is Allow exactly when no tier forbids the model, with
  -- the credential that `Permit` gives.
  pub effective_models-Reports :
      Distinct OtherModel (effective_models e)
      × ((p m : Text)
          → any (λ x. x.provider == p && x.model == m) (effective_models e) ≡ (
              any (names p m) e.cluster.rules
              || any (names p m) e.ns.rules
              || any (names p m) e.wl.rules))
      × All (Reports e) (effective_models e)
  unfolding effective_models
  effective_models-Reports =
      let first = collect [] e.cluster.rules in
      let second = collect first e.ns.rules in
      let order = collect second e.wl.rules in
      (
        Distinct-models order (
            collect-Distinct second e.wl.rules
              (collect-Distinct first e.ns.rules (collect-Distinct [] e.cluster.rules tt))),
        λ p m.
            any-models p m order
            ∙ (any-collect p m second e.wl.rules
                ∙ rw (any-collect p m first e.ns.rules, any-collect p m [] e.cluster.rules)
                    (ground arith)),
        models-Reports order,
      )
