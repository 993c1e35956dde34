-- ===== src/Policy/Quota/Limits.antt =====
-- `minQuota` is the greatest lower bound of two quotas in the order of tightness.
use token_control.Common.{◌≡◌, refl, ◌↔◌, Option, none, some, arith}
use token_control.Common.Int.{ℤ, ◌≤ℤ◌}
use token_control.Api.{TokenQuota}
use token_control.Policy.Quota.{min_ptr, min_quota}

-- A limit is at most another, where an unset one is no limit.
abbrev pub AtMost : Option ℤ → Option ℤ → Type 0
AtMost a none = Unit
AtMost none (some y) = ⊥
AtMost (some x) (some y) = x ≤ℤ y

abbrev pub no_quota : TokenQuota
no_quota = record {
  tokens_per_minute = none;
  requests_per_minute = none;
  tokens_per_day = none;
  tokens_per_month = none;
}

abbrev pub fields : Option TokenQuota → TokenQuota
fields none = no_quota
fields (some q) = q

AtMost-min_ptr : (c a b : Option ℤ) → AtMost c (min_ptr a b) ↔ (AtMost c a × AtMost c b)
unfolding min_ptr
AtMost-min_ptr none none none = ground arith
AtMost-min_ptr none none (some y) = ground arith
AtMost-min_ptr none (some x) none = ground arith
AtMost-min_ptr none (some x) (some y) = ground arith
AtMost-min_ptr (some z) none none = ground arith
AtMost-min_ptr (some z) none (some y) = ground arith
AtMost-min_ptr (some z) (some x) none = ground arith
AtMost-min_ptr (some z) (some x) (some y) = ground arith

min_ptr-none : (a : Option ℤ) → min_ptr a none ≡ a
unfolding min_ptr
min_ptr-none none = refl
min_ptr-none (some x) = refl

-- Field by field, also where a quota is nil.
abbrev pub min_fields : TokenQuota → TokenQuota → TokenQuota
min_fields a b = record {
  tokens_per_minute = min_ptr a.tokens_per_minute b.tokens_per_minute;
  requests_per_minute = min_ptr a.requests_per_minute b.requests_per_minute;
  tokens_per_day = min_ptr a.tokens_per_day b.tokens_per_day;
  tokens_per_month = min_ptr a.tokens_per_month b.tokens_per_month;
}

fields-min_quota :
    (a b : Option TokenQuota) → fields (min_quota a b) ≡ min_fields (fields a) (fields b)
unfolding min_quota
fields-min_quota none none = refl
fields-min_quota none (some b) = refl
fields-min_quota (some a) none = simp min_ptr-none
fields-min_quota (some a) (some b) = refl

-- Each field of a quota is at most that of another.
abbrev pub Within : TokenQuota → TokenQuota → Type 0
Within c a =
    AtMost c.tokens_per_minute a.tokens_per_minute
    × AtMost c.requests_per_minute a.requests_per_minute
    × AtMost c.tokens_per_day a.tokens_per_day
    × AtMost c.tokens_per_month a.tokens_per_month

Within-min_fields : (c a b : TokenQuota) → Within c (min_fields a b) ↔ (Within c a × Within c b)
Within-min_fields c a b = (
  λ h. (
    ((t.0 h.0).0, (r.0 h.1).0, (d.0 h.2).0, (m.0 h.3).0),
    ((t.0 h.0).1, (r.0 h.1).1, (d.0 h.2).1, (m.0 h.3).1),
  ),
  λ (x, y). (t.1 (x.0, y.0), r.1 (x.1, y.1), d.1 (x.2, y.2), m.1 (x.3, y.3)),
)
  where
    t : AtMost c.tokens_per_minute (min_ptr a.tokens_per_minute b.tokens_per_minute) ↔ (
        AtMost c.tokens_per_minute a.tokens_per_minute
        × AtMost c.tokens_per_minute b.tokens_per_minute)
    t = AtMost-min_ptr c.tokens_per_minute a.tokens_per_minute b.tokens_per_minute

    r : AtMost c.requests_per_minute (min_ptr a.requests_per_minute b.requests_per_minute) ↔ (
        AtMost c.requests_per_minute a.requests_per_minute
        × AtMost c.requests_per_minute b.requests_per_minute)
    r = AtMost-min_ptr c.requests_per_minute a.requests_per_minute b.requests_per_minute

    d :
        AtMost c.tokens_per_day (min_ptr a.tokens_per_day b.tokens_per_day)
        ↔ (AtMost c.tokens_per_day a.tokens_per_day × AtMost c.tokens_per_day b.tokens_per_day)
    d = AtMost-min_ptr c.tokens_per_day a.tokens_per_day b.tokens_per_day

    m : AtMost c.tokens_per_month (min_ptr a.tokens_per_month b.tokens_per_month) ↔ (
        AtMost c.tokens_per_month a.tokens_per_month × AtMost c.tokens_per_month b.tokens_per_month)
    m = AtMost-min_ptr c.tokens_per_month a.tokens_per_month b.tokens_per_month

abbrev pub Tighter : Option TokenQuota → Option TokenQuota → Type 0
Tighter a b = Within (fields a) (fields b)

-- A quota is within the combined quota exactly when it is within both.
pub Tighter-min_quota :
    (c a b : Option TokenQuota) → Tighter c (min_quota a b) ↔ (Tighter c a × Tighter c b)
Tighter-min_quota c a b =
    rw (fields-min_quota a b) (Within-min_fields (fields c) (fields a) (fields b))
