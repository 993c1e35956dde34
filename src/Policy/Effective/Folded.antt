-- ===== src/Policy/Effective/Folded.antt =====
-- `Permit` reads the names of a provider and of a model up to letter case and outer space.
use token_control.Common.{◌≡◌, arith}
use token_control.Text.{Text}
use token_control.Policy.Glob.{fold}
use token_control.Policy.Tier.{Verdict, eval_tier}
use token_control.Policy.Tier.Folded.{eval_tier-fold}
use token_control.Policy.Effective.{Effective, ModelDecision, permit, combine}

-- Two decisions that differ at most in the names that they are on, and in the wording of the reason.
abbrev pub SameVerdict : ModelDecision → ModelDecision → Type 0
SameVerdict a b =
    (a.allowed ≡ b.allowed) × (a.credential ≡ b.credential) × (a.denied_by ≡ b.denied_by)

combine-names :
    (c n w : Verdict) (default p q m o : Text)
    → SameVerdict (combine c n w default p m) (combine c n w default q o)
unfolding combine
combine-names c n w default p q m o = ground arith

-- If two names of a provider agree up to letter case and outer space, and two names of a model do,
-- then the decisions on them agree: whether the model is allowed, with which credential, and which
-- policy denies it.
pub permit-fold :
    (e : Effective) (p q m n : Text)
    → fold p ≡ fold q
    → fold m ≡ fold n
    → SameVerdict (permit e p m) (permit e q n)
unfolding permit
permit-fold e p q m n provider model =
    rw
      (
        eval_tier-fold p q m n provider model e.cluster,
        eval_tier-fold p q m n provider model e.ns,
        eval_tier-fold p q m n provider model e.wl,
      )
      (combine-names (eval_tier e.cluster q n) (eval_tier e.ns q n) (eval_tier e.wl q n)
        e.default_credential p q m n)
