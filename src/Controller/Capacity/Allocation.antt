-- ===== src/Controller/Capacity/Allocation.antt =====
-- The sum of the budgets of the policies that name a credential, field by field.
use token_control.Common.{
  ℕ, ◌+◌, ◌^◌, ◌<◌, ◌≡◌, ◌≢◌, inl, inr, refl, ap, Bool, true, false, List, [], ◌∷◌, Option, none,
  some, All, arith, any, if◌then◌else◌, Bool-cases,
}
use token_control.Common.Int.{ℤ, pos, negsuc, add64_exact}
use token_control.Common.Sort.{Distinct}
use token_control.Text.{Text, ◌==◌}
use token_control.Text.Laws.{eq_iff}
use token_control.Api.{TokenQuota}
use token_control.Controller.Capacity.{
  quota_or_empty, normalize_quota, map_quota2, add_ptr, add_quota, Rollup, add_reference, roll_up,
}

-- The four windows of a quota.
pub data Window : Type 0 where
  minute_tokens minute_requests day_tokens month_tokens : Window

abbrev pub limit : Window → TokenQuota → Option ℤ
limit minute_tokens q = q.tokens_per_minute
limit minute_requests q = q.requests_per_minute
limit day_tokens q = q.tokens_per_day
limit month_tokens q = q.tokens_per_month

pub limit-map_quota2 :
    (w : Window) (op : Option ℤ → Option ℤ → Option ℤ) (a b : Option TokenQuota)
    → limit w (quota_or_empty (map_quota2 op a b))
      ≡ op (limit w (quota_or_empty a)) (limit w (quota_or_empty b))
unfolding map_quota2 normalize_quota
limit-map_quota2 minute_tokens op a b = ground arith
limit-map_quota2 minute_requests op a b = ground arith
limit-map_quota2 day_tokens op a b = ground arith
limit-map_quota2 month_tokens op a b = ground arith

-- A budget as a number, where the schema's minimum 0 holds.
abbrev pub amount_of : Option ℤ → ℕ
amount_of none = 0
amount_of (some (pos n)) = n
amount_of (some (negsuc n)) = 0

abbrev pub IsNatural : Option ℤ → Type 0
IsNatural none = Unit
IsNatural (some (pos n)) = Unit
IsNatural (some (negsuc n)) = ⊥

abbrev pub amount : Window → Option TokenQuota → ℕ
amount w q = amount_of (limit w (quota_or_empty q))

abbrev pub IsBudget : Window → Option TokenQuota → Type 0
IsBudget w q = IsNatural (limit w (quota_or_empty q))

add_ptr-exact :
    (a b : Option ℤ)
    → IsNatural a
    → IsNatural b
    → amount_of a + amount_of b < 2 ^ 63
    → IsNatural (add_ptr a b) × (amount_of (add_ptr a b) ≡ amount_of a + amount_of b)
unfolding add_ptr
add_ptr-exact none none ha hb h = (tt, refl)
add_ptr-exact none (some (pos y)) ha hb h = (tt, omega arith)
add_ptr-exact none (some (negsuc y)) ha hb h = absurd hb
add_ptr-exact (some (pos x)) none ha hb h = (tt, omega arith)
add_ptr-exact (some (negsuc x)) b ha hb h = absurd ha
add_ptr-exact (some (pos x)) (some (pos y)) ha hb h = rw (add64_exact x y h) (tt, refl)
add_ptr-exact (some (pos x)) (some (negsuc y)) ha hb h = absurd hb

add_quota-exact :
    (w : Window) (a b : Option TokenQuota)
    → IsBudget w a
    → IsBudget w b
    → amount w a + amount w b < 2 ^ 63
    → IsBudget w (add_quota a b) × (amount w (add_quota a b) ≡ amount w a + amount w b)
unfolding add_quota
add_quota-exact w a b ha hb h =
    rw (limit-map_quota2 w add_ptr a b)
      (add_ptr-exact (limit w (quota_or_empty a)) (limit w (quota_or_empty b)) ha hb h)

-- The budgets of the policies that name the credential.
abbrev pub sum_bound : {A : Type 0} → (A → Bool) → (A → ℕ) → List A → ℕ
sum_bound binds budget [] = 0
sum_bound binds budget (p ∷ ps) = (if binds p then budget p else 0) + sum_bound binds budget ps

abbrev pub IsNew : List Text → Text → Type 0
IsNew set key = any (λ s. key == s) set ≡ false

IsNew-cons :
    {A : Type 0} (source : A → Text) (p : A) (set : List Text) (ps : List A)
    → All (λ q. IsNew set (source q)) ps
    → All (λ q. source p ≢ source q) ps
    → All (λ q. IsNew (source p ∷ set) (source q)) ps
IsNew-cons source p set [] h k = tt
IsNew-cons source p set (q ∷ ps) h k =
    (ground (arith, eq_iff (source q) (source p)), IsNew-cons source p set ps h.1 k.1)

add_reference-skip :
    (b : Bool) (key : Text) (q : Option TokenQuota) (r : Rollup)
    → b ≡ false
    → add_reference b key q r ≡ r
unfolding add_reference
add_reference-skip b key q r e = rw e

add_reference-new :
    (b : Bool) (key : Text) (q : Option TokenQuota) (r : Rollup)
    → b ≡ true
    → IsNew r.set key
    → add_reference b key q r ≡ record { set = key ∷ r.set; allocated = add_quota r.allocated q }
unfolding add_reference
add_reference-new b key q r e n = rw (e, n)

module _ {A : Type 0} (binds : A → Bool) (source : A → Text) (quota : A → Option TokenQuota) where
  roll_up-cons :
      (r next : Rollup) (p : A) (ps : List A)
      → add_reference (binds p) (source p) (quota p) r ≡ next
      → roll_up binds source quota r (p ∷ ps) ≡ roll_up binds source quota next ps
  unfolding roll_up
  roll_up-cons r next p ps e = ap (λ s. roll_up binds source quota s ps) e

  -- Over policies with different sources the rollup adds the budget of each one that names the
  -- credential, and nothing else, as long as the sum is an int64.
  pub roll_up-exact :
      (w : Window) (r : Rollup) (ps : List A)
      → IsBudget w r.allocated
      → All (λ p. IsBudget w (quota p)) ps
      → All (λ p. IsNew r.set (source p)) ps
      → Distinct (λ p q. source p ≢ source q) ps
      → amount w r.allocated + sum_bound binds (λ p. amount w (quota p)) ps < 2 ^ 63
      → IsBudget w (roll_up binds source quota r ps).allocated
        × (amount w (roll_up binds source quota r ps).allocated
            ≡ amount w r.allocated + sum_bound binds (λ p. amount w (quota p)) ps)
  roll_up-exact w r [] hr hs hn hd h = unfold roll_up in (hr, omega arith)
  roll_up-exact w r (p ∷ ps) hr (hp, hs) (new, hn) (other, hd) h = elim (Bool-cases (binds p)) [
    | inr skip ↦
        let tail : amount w r.allocated + sum_bound binds (λ q. amount w (quota q)) ps < 2 ^ 63 =
          ground arith in
        let (budget, exact) = roll_up-exact w r ps hr hs hn hd tail in
        rw (roll_up-cons r r p ps (add_reference-skip (binds p) (source p) (quota p) r skip), skip)
          (budget, omega arith)
    | inl bound ↦
        let sum : amount w r.allocated + amount w (quota p) < 2 ^ 63 = ground arith in
        let (added, total) = add_quota-exact w r.allocated (quota p) hr hp sum in
        let next : Rollup = record {
          set = source p ∷ r.set;
          allocated = add_quota r.allocated (quota p);
        } in
        let tail : amount w next.allocated + sum_bound binds (λ q. amount w (quota q)) ps < 2 ^ 63 =
          ground arith in
        let (budget, exact) =
          roll_up-exact w next ps added hs (IsNew-cons source p r.set ps hn other) hd tail in
        rw
          (
            roll_up-cons r next p ps (add_reference-new (binds p) (source p) (quota p) r bound new),
            bound,
          )
          (budget, omega arith)
  ]
