-- ===== src/Controller/Capacity/Planning.antt =====
-- The rollup of all policies against the declared capacity.
use token_control.Common.{
  ℕ, ◌+◌, ◌-◌, ◌^◌, ◌<◌, ◌≤◌, ◌≡◌, ◌↔◌, ◌∙◌, refl, false, Option, none, some, arith,
}
use token_control.Common.Int.{ℤ, pos, negsuc, ◌≤ℤ◌, add64_wraps, sub64_exact}
use token_control.Api.{TokenQuota}
use token_control.Controller.Capacity.{
  empty_quota, quota_or_empty, add_ptr, available_ptr, available_quota, over, oversubscribed,
  within_capacity, reconcile_capacity,
}
use token_control.Controller.Capacity.Allocation.{
  Window, minute_tokens, minute_requests, day_tokens, month_tokens, limit, limit-map_quota2,
  amount_of, amount, IsNatural, IsBudget,
}

-- An allocated budget is within the declared capacity, where both are set.
abbrev pub Fits : Option ℤ → Option ℤ → Type 0
Fits none cv = Unit
Fits (some av) none = Unit
Fits (some av) (some cv) = av ≤ℤ cv

over-Fits : (cv av : Option ℤ) → (over cv av ≡ false) ↔ Fits av cv
over-Fits none none = ground arith
over-Fits none (some av) = ground arith
over-Fits (some cv) none = ground arith
over-Fits (some cv) (some av) = ground arith

oversubscribed-Fits :
    (c : TokenQuota) (a : Option TokenQuota)
    → (oversubscribed (some c) a ≡ false)
      ↔ ((w : Window) → Fits (limit w (quota_or_empty a)) (limit w c))
unfolding oversubscribed
oversubscribed-Fits c none = (λ h w. nothing w, λ h. refl)
  where
    nothing : (w : Window) → Fits (limit w empty_quota) (limit w c)
    nothing minute_tokens = tt
    nothing minute_requests = tt
    nothing day_tokens = tt
    nothing month_tokens = tt
oversubscribed-Fits c (some a) =
    (λ h w. (over-Fits (limit w c) (limit w a)).0 (part w h), λ h. joined h)
  where
    part :
        (w : Window)
        → oversubscribed (some c) (some a) ≡ false
        → over (limit w c) (limit w a) ≡ false
    part minute_tokens h = ground arith
    part minute_requests h = ground arith
    part day_tokens h = ground arith
    part month_tokens h = ground arith

    joined :
        ((w : Window) → Fits (limit w a) (limit w c)) → oversubscribed (some c) (some a) ≡ false
    joined h = rw (
      (over-Fits (limit minute_tokens c) (limit minute_tokens a)).1 (h minute_tokens),
      (over-Fits (limit minute_requests c) (limit minute_requests a)).1 (h minute_requests),
      (over-Fits (limit day_tokens c) (limit day_tokens a)).1 (h day_tokens),
      (over-Fits (limit month_tokens c) (limit month_tokens a)).1 (h month_tokens),
    )

-- A credential is reported within capacity exactly when in every window the allocated budget is at
-- most the declared capacity, where both are set.
pub reconcile_capacity-Fits :
    (c : TokenQuota) (a : Option TokenQuota)
    → ((reconcile_capacity (some c) a).oversubscription ≡ within_capacity)
      ↔ ((w : Window) → Fits (limit w (quota_or_empty a)) (limit w c))
unfolding reconcile_capacity
reconcile_capacity-Fits c a =
    let both = oversubscribed-Fits c a in (λ h. both.0 (ground arith), λ h. rw (both.1 h))

-- Where the sum of two budgets, each an int64 and not negative, is no int64, `addQuota` gives a
-- negative number, which exceeds no capacity that is not negative.
pub add_ptr-wraps :
    (m n c : ℕ)
    → m < 2 ^ 63
    → n < 2 ^ 63
    → 2 ^ 63 ≤ m + n
    → over (some (pos c)) (add_ptr (some (pos m)) (some (pos n))) ≡ false
unfolding add_ptr
add_ptr-wraps m n c hm hn h = rw (add64_wraps m n hm hn h) (ground arith)

available_ptr-exact :
    (c : ℕ) (av : Option ℤ)
    → c < 2 ^ 63
    → IsNatural av
    → amount_of av < 2 ^ 63
    → available_ptr (some (pos c)) av ≡ some (pos (c - amount_of av))
unfolding available_ptr
available_ptr-exact c none hc hn h = rw (sub64_exact c 0 hc (omega arith)) (ground arith)
available_ptr-exact c (some (pos n)) hc hn h = rw (sub64_exact c n hc h) (ground arith)
available_ptr-exact c (some (negsuc n)) hc hn h = absurd hn

-- In a window with a capacity that is an int64 and not negative, and an allocation of that kind, what
-- is left is the capacity less what is allocated, and 0 where more is allocated.
pub reconcile_capacity-available :
    (w : Window) (c : TokenQuota) (a : Option TokenQuota) (n : ℕ)
    → limit w c ≡ some (pos n)
    → n < 2 ^ 63
    → IsBudget w a
    → amount w a < 2 ^ 63
    → limit w (quota_or_empty (reconcile_capacity (some c) a).available)
      ≡ some (pos (n - amount w a))
unfolding reconcile_capacity available_quota
reconcile_capacity-available w c a n e hc ha h =
    limit-map_quota2 w available_ptr (some c) a
    ∙ rw e (available_ptr-exact n (limit w (quota_or_empty a)) hc ha h)
