-- ===== src/Controller/Claim/Credentials.antt =====
-- Which credentials a claim reports as bound.
use token_control.Common.{
  ◌≡◌, ◌∙◌, inl, inr, refl, true, false, not, ◌&&◌, ◌||◌, List, [], ◌∷◌, ◌++◌, any, any-append, All,
  All-append, arith, if◌then◌else◌, Bool-cases,
}
use token_control.Common.Sort.{Distinct}
use token_control.Text.{Text, ◌==◌}
use token_control.Text.Laws.{eq_iff, OtherText}
use token_control.Api.{EffectiveModel}
use token_control.Controller.Claim.{counts, distinct_credentials, distinct_allowed_credentials}

abbrev next : List Text → EffectiveModel → List Text
next out m =
    if counts m && not (any (λ c. c == m.credential) out) then out ++ (m.credential ∷ []) else out

any-equal :
    (c d : Text) (out : List Text) → (d == c) ≡ true → any (λ x. x == d) out ≡ any (λ x. x == c) out
any-equal c d out h = let same : d ≡ c = (eq_iff d c).0 h in rw same refl

any-next :
    (c : Text) (out : List Text) (m : EffectiveModel)
    → any (λ d. d == c) (next out m) ≡ (any (λ d. d == c) out || (counts m && m.credential == c))
any-next c out m = elim (Bool-cases (counts m && not (any (λ d. d == m.credential) out))) [
  | inl e ↦ rw (e, any-append (λ d. d == c) out (m.credential ∷ [])) (ground arith)
  | inr e ↦ elim (Bool-cases (m.credential == c)) [
    | inl f ↦ rw e (ground (arith, any-equal c m.credential out f))
    | inr f ↦ rw (e, f) (ground arith)
  ]
]

All-OtherText :
    (d : Text) (x : Text) (out : List Text)
    → OtherText d x
    → All (OtherText d) out
    → All (OtherText d) (out ++ (x ∷ []))
All-OtherText d x out h k = All-append (OtherText d) out (x ∷ []) k (h, tt)

Distinct-last :
    (x : Text) (out : List Text)
    → any (λ d. d == x) out ≡ false
    → Distinct OtherText out
    → Distinct OtherText (out ++ (x ∷ []))
Distinct-last x [] h k = (tt, tt)
Distinct-last x (d ∷ out) h (p, k) =
    (All-OtherText d x out (ground arith) p, Distinct-last x out (ground arith) k)

Distinct-next :
    (out : List Text) (m : EffectiveModel)
    → Distinct OtherText out
    → Distinct OtherText (next out m)
Distinct-next out m h = elim (Bool-cases (counts m && not (any (λ d. d == m.credential) out))) [
  | inl e ↦ rw e (Distinct-last m.credential out (ground arith) h)
  | inr e ↦ rw e h
]

distinct_credentials-Distinct :
    (out : List Text) (ms : List EffectiveModel)
    → Distinct OtherText out
    → Distinct OtherText (distinct_credentials out ms)
unfolding distinct_credentials
distinct_credentials-Distinct out [] h = h
distinct_credentials-Distinct out (m ∷ ms) h =
    distinct_credentials-Distinct (next out m) ms (Distinct-next out m h)

any-distinct_credentials :
    (c : Text) (out : List Text) (ms : List EffectiveModel)
    → any (λ d. d == c) (distinct_credentials out ms)
      ≡ (any (λ d. d == c) out || any (λ m. counts m && m.credential == c) ms)
unfolding distinct_credentials
any-distinct_credentials c out [] = ground arith
any-distinct_credentials c out (m ∷ ms) =
    any-distinct_credentials c (next out m) ms ∙ rw (any-next c out m) (ground arith)

-- The bound credentials of a claim are all different, and they are exactly the credentials of the
-- requests that are allowed and have one.
pub distinct_allowed_credentials-counts :
    (ms : List EffectiveModel)
    → Distinct OtherText (distinct_allowed_credentials ms)
      × ((c : Text)
          → any (λ d. d == c) (distinct_allowed_credentials ms)
            ≡ any (λ m. counts m && m.credential == c) ms)
unfolding distinct_allowed_credentials
distinct_allowed_credentials-counts ms =
    (distinct_credentials-Distinct [] ms tt, λ c. any-distinct_credentials c [] ms)
