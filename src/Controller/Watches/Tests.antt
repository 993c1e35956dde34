-- ===== src/Controller/Watches/Tests.antt =====
-- The requests of the controllers at concrete events.
use token_control.Common.{◌≡◌, ◌⊎◌, inl, inr, refl, [], ◌∷◌, Some}
use token_control.Common.Result.{ok}
use token_control.Policy.Samples.{equality_selectors, team_default, batch_only}
use token_control.Webhook.Samples.{batch_claim, team_client}
use token_control.Controller.Samples.{prepend, stored_claim}
use token_control.Controller.Claim.{StoredClaim, rebind}
use token_control.Controller.Watches.{
  token_policy, model_claim, policy_key, claim_key, claim_requests, policy_requests,
}
use token_control.Controller.Watches.Fresh.{claim_requests-fresh}

-- The other policy of the namespace, whose status depends on it, is not enqueued.
sibling :
    policy_requests
      (record { kind = token_policy; key = policy_key batch_only })
      (ok (team_default ∷ []))
    ≡ policy_key batch_only ∷ []
unfolding policy_requests
sibling = refl

-- The claim requests one model less.
abbrev edited_claim : StoredClaim
edited_claim = record stored_claim {
  claim = record batch_claim { spec = record batch_claim.spec { models = [] } };
}

claim_requests-fresh_example :
    (rebind equality_selectors prepend team_client stored_claim
      ≡ rebind equality_selectors prepend team_client edited_claim)
    ⊎ Some
        (λ k. k ≡ claim_key edited_claim.claim)
        (claim_requests
          (record { kind = model_claim; key = claim_key batch_claim })
          (ok (edited_claim.claim ∷ [])))
claim_requests-fresh_example =
    claim_requests-fresh equality_selectors prepend team_client team_client stored_claim
      edited_claim model_claim (claim_key batch_claim) (edited_claim.claim ∷ [])
      (refl, λ ns. refl, λ name. refl) (inr refl) (inl refl)
