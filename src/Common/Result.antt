-- ===== src/Common/Result.antt =====
-- A Go result with an error: the value if the error is nil, or the error.
use mathlib.Core.Logic.{◌⊎◌, inl, inr}
use mathlib.Core.Path.{◌≡◌, refl}
use native.Mathlib.Omega.{arith}

pub data Result (Failure Value : Type 0) : Type 0 where
  err : Failure → Result Failure Value
  ok : Value → Result Failure Value

-- `fmt.Errorf("...: %w", err)`: the error with what it is about.
abbrev pub map_err : {E F A : Type 0} → (E → F) → Result E A → Result F A
map_err wrap (err e) = err (wrap e)
map_err wrap (ok a) = ok a

-- To split on a computed result and keep the equation.
pub Result-cases :
    {E A : Type 0} (r : Result E A) → ((a : A) × (r ≡ ok a)) ⊎ ((e : E) × (r ≡ err e))
Result-cases (ok a) = inl (a, refl)
Result-cases (err e) = inr (e, refl)

-- `if err != nil { return err }` between a call and what follows it.
infixl 5 ◌>>=◌
abbrev pub ◌>>=◌ : {E A B : Type 0} → Result E A → (A → Result E B) → Result E B
call >>= follow = elim call [ err e ↦ err e | ok a ↦ follow a ]

-- What follows a call returns a value only after the call has returned one.
pub >>=-returns :
    {E A B : Type 0} {out : B} (call : Result E A) (follow : A → Result E B)
    → (call >>= follow) ≡ ok out
    → (a : A) × (call ≡ ok a) × (follow a ≡ ok out)
>>=-returns call follow h = elim (Result-cases call) [
  | inl (a, e) ↦ (a, e, rw e at h)
  | inr (x, e) ↦ absurd (ground arith)
]
