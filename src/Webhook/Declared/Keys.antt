-- ===== src/Webhook/Declared/Keys.antt =====
-- The models that a pod is governed for: each once, and which.
use token_control.Common.{
  ◌≡◌, ◌∙◌, inl, inr, refl, Bool, true, false, not, ◌&&◌, ◌||◌, List, [], ◌∷◌, none, any, All,
  is_nil, arith, Bool-cases,
}
use token_control.Common.Result.{ok}
use token_control.Common.Sort.{sort, Distinct, any-sort}
use token_control.Text.{Text, to_lower, trim_space}
use token_control.Text.Laws.{eq_iff}
use token_control.Api.Selector.{LabelSelectors}
use token_control.Api.Claim.{ModelRequest, ModelClaim}
use token_control.Policy.Tier.{credential_name}
use token_control.Webhook.Cluster.{Client}
use token_control.Webhook.Pod.{Pod}
use token_control.Webhook.Declared.{
  DeclaredModel, parse_models, same_model, prefer, merge, add, add_requests, selects, add_claims,
  by_claim_name, add_declared, declared_models,
}

-- Two entries that the map `seen` tells apart.
abbrev pub OtherModel : DeclaredModel → DeclaredModel → Type 0
OtherModel a b = same_model a b ≡ false

same_model_left : (x d e : DeclaredModel) → same_model d e ≡ true → same_model x d ≡ same_model x e
same_model_left x d e h =
    let p : to_lower d.provider ≡ to_lower e.provider =
      (eq_iff (to_lower d.provider) (to_lower e.provider)).0 (ground arith) in
    let m : to_lower d.model ≡ to_lower e.model =
      (eq_iff (to_lower d.model) (to_lower e.model)).0 (ground arith) in
    rw (p, m)

same_model-prefer_left :
    (d x : DeclaredModel) (cred : Text) → same_model (prefer d cred) x ≡ same_model d x
same_model-prefer_left d x cred = ground arith

same_model-prefer :
    (x d : DeclaredModel) (cred : Text) → same_model x (prefer d cred) ≡ same_model x d
same_model-prefer x d cred = ground arith

All-merge :
    (x : DeclaredModel) (out : List DeclaredModel) (new : DeclaredModel)
    → All (OtherModel x) out
    → OtherModel x new
    → All (OtherModel x) (merge out new)
unfolding merge
All-merge x [] new h k = (k, tt)
All-merge x (d ∷ out) new (p, h) k = elim (Bool-cases (same_model d new)) [
  | inl e ↦ rw e (same_model-prefer x d new.credential ∙ p, h)
  | inr e ↦ rw e (p, All-merge x out new h k)
]

prefer-All :
    (d : DeclaredModel) (cred : Text) (out : List DeclaredModel)
    → All (OtherModel d) out
    → All (OtherModel (prefer d cred)) out
prefer-All d cred [] h = tt
prefer-All d cred (x ∷ out) (p, h) = (same_model-prefer_left d x cred ∙ p, prefer-All d cred out h)

Distinct-merge :
    (out : List DeclaredModel) (new : DeclaredModel)
    → Distinct OtherModel out
    → Distinct OtherModel (merge out new)
unfolding merge
Distinct-merge [] new h = (tt, tt)
Distinct-merge (d ∷ out) new (p, h) = elim (Bool-cases (same_model d new)) [
  | inl e ↦ rw e (prefer-All d new.credential out p, h)
  | inr e ↦ rw e (All-merge d out new p e, Distinct-merge out new h)
]

any-merge :
    (x : DeclaredModel) (out : List DeclaredModel) (new : DeclaredModel)
    → any (same_model x) (merge out new) ≡ (any (same_model x) out || same_model x new)
unfolding merge
any-merge x [] new = ground arith
any-merge x (d ∷ out) new = elim (Bool-cases (same_model d new)) [
  | inl e ↦ rw (e, same_model-prefer x d new.credential, same_model_left x d new e) (ground arith)
  | inr e ↦ rw (e, any-merge x out new) (ground arith)
]

-- A request for the model of an entry, up to case and the spaces around it.
abbrev pub requests : DeclaredModel → ModelRequest → Bool
requests x m =
    not (is_nil (trim_space m.provider) || is_nil (trim_space m.model))
    && same_model x
        (record { provider = trim_space m.provider; model = trim_space m.model; credential = [] })

-- The request that stands for an annotated model.
abbrev pub request_of : DeclaredModel → ModelRequest
request_of d = record { provider = d.provider; model = d.model; credential_ref = none }

any-add :
    (x : DeclaredModel) (out : List DeclaredModel) (m : ModelRequest) (cred : Text)
    → any (same_model x) (add out m.provider m.model cred)
      ≡ (any (same_model x) out || requests x m)
unfolding add
any-add x out m cred =
    elim (Bool-cases (is_nil (trim_space m.provider) || is_nil (trim_space m.model))) [
      | inl e ↦ rw e (ground arith)
      | inr e ↦ rw (
        e,
        any-merge x out (record {
          provider = trim_space m.provider;
          model = trim_space m.model;
          credential = cred;
        }),
      )
    ]

any-add_requests :
    (x : DeclaredModel) (out : List DeclaredModel) (ms : List ModelRequest)
    → any (same_model x) (add_requests out ms) ≡ (any (same_model x) out || any (requests x) ms)
unfolding add_requests
any-add_requests x out [] = ground arith
any-add_requests x out (m ∷ ms) =
    any-add_requests x (add out m.provider m.model (credential_name m.credential_ref)) ms
    ∙ rw (any-add x out m (credential_name m.credential_ref)) (ground arith)

any-add_claims :
    (K : LabelSelectors) (pod : Pod) (x : DeclaredModel) (out : List DeclaredModel)
    (cls : List ModelClaim)
    → any (same_model x) (add_claims K pod out cls) ≡ (
        any (same_model x) out
        || any (λ cl. selects K pod cl && any (requests x) cl.spec.models) cls)
unfolding add_claims
any-add_claims K pod x out [] = ground arith
any-add_claims K pod x out (cl ∷ cls) = elim (Bool-cases (selects K pod cl)) [
  | inl e ↦ rw e (
      any-add_claims K pod x (add_requests out cl.spec.models) cls
      ∙ rw (any-add_requests x out cl.spec.models) (ground arith))
  | inr e ↦ rw e (any-add_claims K pod x out cls)
]

any-add_declared :
    (x : DeclaredModel) (out ds : List DeclaredModel)
    → any (same_model x) (add_declared out ds)
      ≡ (any (same_model x) out || any (λ d. requests x (request_of d)) ds)
unfolding add_declared
any-add_declared x out [] = ground arith
any-add_declared x out (d ∷ ds) =
    any-add_declared x (add out d.provider d.model []) ds
    ∙ rw (any-add x out (request_of d) []) (ground arith)

Distinct-add :
    (out : List DeclaredModel) (provider model cred : Text)
    → Distinct OtherModel out
    → Distinct OtherModel (add out provider model cred)
unfolding add
Distinct-add out provider model cred h =
    elim (Bool-cases (is_nil (trim_space provider) || is_nil (trim_space model))) [
      | inl e ↦ rw e h
      | inr e ↦ rw e (Distinct-merge out _ h)
    ]

Distinct-add_requests :
    (out : List DeclaredModel) (ms : List ModelRequest)
    → Distinct OtherModel out
    → Distinct OtherModel (add_requests out ms)
unfolding add_requests
Distinct-add_requests out [] h = h
Distinct-add_requests out (m ∷ ms) h =
    Distinct-add_requests (add out m.provider m.model (credential_name m.credential_ref)) ms
      (Distinct-add out m.provider m.model (credential_name m.credential_ref) h)

Distinct-add_claims :
    (K : LabelSelectors) (pod : Pod) (out : List DeclaredModel) (cls : List ModelClaim)
    → Distinct OtherModel out
    → Distinct OtherModel (add_claims K pod out cls)
unfolding add_claims
Distinct-add_claims K pod out [] h = h
Distinct-add_claims K pod out (cl ∷ cls) h = elim (Bool-cases (selects K pod cl)) [
  | inl e ↦ rw e (
      Distinct-add_claims K pod (add_requests out cl.spec.models) cls
        (Distinct-add_requests out cl.spec.models h))
  | inr e ↦ rw e (Distinct-add_claims K pod out cls h)
]

Distinct-add_declared :
    (out ds : List DeclaredModel)
    → Distinct OtherModel out
    → Distinct OtherModel (add_declared out ds)
unfolding add_declared
Distinct-add_declared out [] h = h
Distinct-add_declared out (d ∷ ds) h =
    Distinct-add_declared (add out d.provider d.model []) ds
      (Distinct-add out d.provider d.model [] h)

module _ (K : LabelSelectors) (c : Client) (namespace : Text) (pod : Pod) (claims : List ModelClaim)
    (listed : c.list_claims namespace ≡ ok claims) where
  -- Where the claims of the namespace can be listed, the declared models of a pod are found, no model
  -- is declared twice, up to case, and a model is declared exactly when a claim that selects the pod
  -- requests it or the annotation of the pod declares it.
  pub declared_models-requests :
      (ds : List DeclaredModel) × (declared_models K c namespace pod ≡ ok ds)
      × Distinct OtherModel ds
      × ((x : DeclaredModel)
          → any (same_model x) ds ≡ (
              any (λ cl. selects K pod cl && any (requests x) cl.spec.models) claims
              || any (λ d. requests x (request_of d)) (parse_models pod)))
  unfolding declared_models
  declared_models-requests =
      let sorted : List ModelClaim = sort by_claim_name claims in
      let claimed : List DeclaredModel = add_claims K pod [] sorted in
      (
        add_declared claimed (parse_models pod),
        rw listed refl,
        Distinct-add_declared claimed (parse_models pod) (Distinct-add_claims K pod [] sorted tt),
        λ x.
            any-add_declared x claimed (parse_models pod)
            ∙ rw
                (
                  any-add_claims K pod x [] sorted,
                  any-sort by_claim_name (λ cl. selects K pod cl && any (requests x) cl.spec.models)
                      claims,
                )
                refl,
      )
