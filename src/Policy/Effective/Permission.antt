-- ===== src/Policy/Effective/Permission.antt =====
-- `Permit`: when a model is permitted, and with which credential.
use token_control.Common.{◌≡◌, ◌≢◌, ◌↔◌, ◌⊎◌, true, false, List, [], ◌∷◌, inl, inr, arith}
use token_control.Text.{Text}
use token_control.Policy.Tier.{deny, Tier, SourcedRule, Verdict, eval_tier}
use token_control.Policy.Tier.Credentials.{Grants, GrantsNone, Credits, eval_tier-Credits}
use token_control.Policy.Tier.Verdicts.{Forbids, eval_tier-deny_iff}
use token_control.Policy.Effective.{Effective, ModelDecision, combine, permit}

combine-allowed :
    (c n w : Verdict) (default provider model : Text)
    → ((combine c n w default provider model).allowed ≡ true)
      ↔ ((c.decision ≢ deny) × (n.decision ≢ deny) × (w.decision ≢ deny))
unfolding combine
combine-allowed c n w default provider model = ground arith

-- A model is permitted exactly when no tier forbids it: neither the cluster tier, nor the namespace
-- tier, nor the workload tier.
pub permit-allowed_iff :
    (e : Effective) (provider model : Text)
    → ((permit e provider model).allowed ≡ true) ↔ (
        (¬ Forbids e.cluster provider model)
        × (¬ Forbids e.ns provider model)
        × (¬ Forbids e.wl provider model))
unfolding permit
permit-allowed_iff e provider model = (
  λ h. let (nc, nn, nw) = both.0 h in (λ f. nc (cluster.1 f), λ f. nn (ns.1 f), λ f. nw (wl.1 f)),
  λ h. both.1 (λ d. h.0 (cluster.0 d), λ d. h.1 (ns.0 d), λ d. h.2 (wl.0 d)),
)
  where
    both : ((permit e provider model).allowed ≡ true) ↔ (
        ((eval_tier e.cluster provider model).decision ≢ deny)
        × ((eval_tier e.ns provider model).decision ≢ deny)
        × ((eval_tier e.wl provider model).decision ≢ deny))
    both =
        combine-allowed (eval_tier e.cluster provider model) (eval_tier e.ns provider model)
          (eval_tier e.wl provider model) e.default_credential provider model

    cluster :
        ((eval_tier e.cluster provider model).decision ≡ deny) ↔ Forbids e.cluster provider model
    cluster = eval_tier-deny_iff e.cluster provider model

    ns : ((eval_tier e.ns provider model).decision ≡ deny) ↔ Forbids e.ns provider model
    ns = eval_tier-deny_iff e.ns provider model

    wl : ((eval_tier e.wl provider model).decision ≡ deny) ↔ Forbids e.wl provider model
    wl = eval_tier-deny_iff e.wl provider model

-- The most specific tier that grants a credential decides it: the workload tier; if that grants none,
-- the namespace tier; then the cluster tier; and if no tier grants one, it is the default.
abbrev pub MostSpecificGrant : Effective → Text → Text → Text → Type 0
MostSpecificGrant e provider model credential =
    Grants e.wl provider model credential
    ⊎ (GrantsNone e.wl provider model
        × (Grants e.ns provider model credential
            ⊎ (GrantsNone e.ns provider model
                × (Grants e.cluster provider model credential
                    ⊎ (GrantsNone e.cluster provider model
                        × (credential ≡ e.default_credential))))))

module _ (e : Effective) (provider model : Text) (c n w : Verdict) where
  abbrev decided : ModelDecision
  decided = combine c n w e.default_credential provider model

  -- The tiers that grant none are passed over.
  combine-MostSpecificGrant :
      Credits provider model e.wl w
      → Credits provider model e.ns n
      → Credits provider model e.cluster c
      → ((decided.allowed ≡ false) × (decided.credential ≡ []))
        ⊎ ((decided.allowed ≡ true) × MostSpecificGrant e provider model decided.credential)
  unfolding combine
  combine-MostSpecificGrant (inl dw) hn hc = inl (ground arith)
  combine-MostSpecificGrant (inr hw) (inl dn) hc = inl (ground arith)
  combine-MostSpecificGrant (inr hw) (inr hn) (inl dc) = inl (ground arith)
  combine-MostSpecificGrant (inr (inl (a, g))) (inr hn) (inr hc) =
      let same : decided.credential ≡ w.credential = ground (arith, g.0) in
      inr (ground arith, rw same (inl g))
  combine-MostSpecificGrant (inr (inr (dw, x, ungranted))) (inr (inl (a, g))) (inr hc) =
      let same : decided.credential ≡ n.credential = ground (arith, g.0) in
      inr (ground arith, rw same (inr (ungranted, inl g)))
  combine-MostSpecificGrant (inr (inr (dw, x, ungranted))) (inr (inr (dn, y, none')))
        (inr (inl (a, g))) =
      let same : decided.credential ≡ c.credential = ground (arith, g.0) in
      inr (ground arith, rw same (inr (ungranted, inr (none', inl g))))
  combine-MostSpecificGrant (inr (inr (dw, x, ungranted))) (inr (inr (dn, y, none')))
        (inr (inr (dc, z, last))) =
      let same : decided.credential ≡ e.default_credential = ground arith in
      inr (ground arith, inr (ungranted, inr (none', inr (last, same))))

-- A model that is not permitted has no credential. That of a permitted model is the one that the first
-- Allow rule that matches it names, in the workload tier; where that tier has no such rule or the rule
-- names none, in the namespace tier; and likewise in the cluster tier; and where none of the three
-- names one, it is the default of the cluster.
pub permit-credential :
    (e : Effective) (provider model : Text)
    → let d = permit e provider model in
      ((d.allowed ≡ false) × (d.credential ≡ []))
      ⊎ ((d.allowed ≡ true) × MostSpecificGrant e provider model d.credential)
unfolding permit
permit-credential e provider model =
    combine-MostSpecificGrant e provider model (eval_tier e.cluster provider model)
      (eval_tier e.ns provider model) (eval_tier e.wl provider model)
      (eval_tier-Credits provider model e.wl) (eval_tier-Credits provider model e.ns)
      (eval_tier-Credits provider model e.cluster)

-- A tier that is as it was, or has lost all its rules.
abbrev pub Dropped : Tier → Tier → Type 0
Dropped t' t = (t' ≡ t) ⊎ (t'.rules ≡ [])

Forbids-nil :
    (name : Text) (rules : List SourcedRule) (provider model : Text)
    → rules ≡ []
    → Forbids (record { name = name; rules = rules }) provider model
    → ⊥
Forbids-nil name [] provider model e (inl s) = s
Forbids-nil name [] provider model e (inr a) = cc (a.0)
Forbids-nil name (r ∷ rs) provider model e f = absurd (ground arith)

Dropped-Forbids :
    (t' t : Tier) (provider model : Text)
    → Dropped t' t
    → Forbids t' provider model
    → Forbids t provider model
Dropped-Forbids t' t provider model (inl e) f = rw (← e) f
Dropped-Forbids t' t provider model (inr e) f =
    absurd (Forbids-nil t'.name t'.rules provider model e f)

-- Dropping tiers keeps what is permitted.
pub permit-Dropped :
    (e' e : Effective) (provider model : Text)
    → Dropped e'.cluster e.cluster
    → Dropped e'.ns e.ns
    → Dropped e'.wl e.wl
    → (permit e provider model).allowed ≡ true
    → (permit e' provider model).allowed ≡ true
permit-Dropped e' e provider model dc dn dw h =
    let (nc, nn, nw) = (permit-allowed_iff e provider model).0 h in
    (permit-allowed_iff e' provider model).1 (
      λ f. nc (Dropped-Forbids e'.cluster e.cluster provider model dc f),
      λ f. nn (Dropped-Forbids e'.ns e.ns provider model dn f),
      λ f. nw (Dropped-Forbids e'.wl e.wl provider model dw f),
    )
