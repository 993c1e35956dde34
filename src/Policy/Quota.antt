-- ===== src/Policy/Quota.antt =====
-- `minQuota` and `minPtr`: the field-wise minimum, where an unset field is no limit.
pub mod Limits
use token_control.Common.{Option, none, some, if◌then◌else◌}
use token_control.Common.Int.{ℤ, leb_ℤ}
use token_control.Api.{TokenQuota}

unfoldable pub min_ptr : Option ℤ → Option ℤ → Option ℤ
min_ptr none b = b
min_ptr (some x) none = some x
min_ptr (some x) (some y) = if leb_ℤ x y then some x else some y

unfoldable pub min_quota : Option TokenQuota → Option TokenQuota → Option TokenQuota
unfolding min_ptr
min_quota none b = b
min_quota (some a) none = some a
min_quota (some a) (some b) = some (record {
  tokens_per_minute = min_ptr a.tokens_per_minute b.tokens_per_minute;
  requests_per_minute = min_ptr a.requests_per_minute b.requests_per_minute;
  tokens_per_day = min_ptr a.tokens_per_day b.tokens_per_day;
  tokens_per_month = min_ptr a.tokens_per_month b.tokens_per_month;
})
