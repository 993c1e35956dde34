-- ===== src/Gateway/Annotations.antt =====
-- The annotations of the generated objects.
use token_control.Common.{◌≡◌, inl, inr, refl, Option, none, some}
use token_control.Common.Int.{ℤ}
use token_control.Common.Result.{ok}
use token_control.Text.{Text, ◌==◌}
use token_control.Text.Decimal.{print_int, read_int, read_int-print_int}
use token_control.Api.{TokenQuota, GatewayIntegration}
use token_control.Api.Selector.{Labels, entry}
use token_control.Api.Policies.{TokenPolicy}
use token_control.Controller.Capacity.{quota_or_empty}
use token_control.Gateway.{
  Artifact, base_meta, annotate_quota, tpm_key, per_day_key, per_month_key, build_envoy,
  build_kuadrant, artifact_for,
}
use token_control.Gateway.Selection.{artifact_for-BuiltFor}

-- The annotation shows the limit in decimal; it is missing where the limit is not set.
abbrev pub Shows : Labels → Text → Option ℤ → Type 0
Shows annotations key none = entry annotations key ≡ none
Shows annotations key (some limit) =
    (t : Text) × (entry annotations key ≡ some t) × (read_int t ≡ some limit)

abbrev pub Annotated : TokenQuota → Labels → Type 0
Annotated q annotations =
    Shows annotations tpm_key q.tokens_per_minute
    × Shows annotations per_day_key q.tokens_per_day
    × Shows annotations per_month_key q.tokens_per_month

annotate_quota-Annotated :
    (quota : Option TokenQuota) → Annotated (quota_or_empty quota) (annotate_quota quota)
unfolding annotate_quota entry ◌==◌
annotate_quota-Annotated none = (refl, refl, refl)
annotate_quota-Annotated (some q) = go q.tokens_per_minute q.tokens_per_day q.tokens_per_month
  where
    shown : (v : ℤ) → (t : Text) × (some (print_int v) ≡ some t) × (read_int t ≡ some v)
    shown v = (print_int v, refl, read_int-print_int v)

    go :
        (a b c : Option ℤ)
        → Annotated
            (record q { tokens_per_minute = a; tokens_per_day = b; tokens_per_month = c })
            (annotate_quota
              (some (record q { tokens_per_minute = a; tokens_per_day = b; tokens_per_month = c })))
    go none none none = (refl, refl, refl)
    go none none (some w) = (refl, refl, shown w)
    go none (some v) none = (refl, shown v, refl)
    go none (some v) (some w) = (refl, shown v, shown w)
    go (some u) none none = (shown u, refl, refl)
    go (some u) none (some w) = (shown u, refl, shown w)
    go (some u) (some v) none = (shown u, shown v, refl)
    go (some u) (some v) (some w) = (shown u, shown v, shown w)

-- The annotations of an artifact show the tokens per minute, per day and per month of the quota: each
-- is read back from its decimal text, and an annotation is missing where its limit is not set.
pub artifact_for-Annotated :
    (gw : GatewayIntegration) (tp : TokenPolicy) (quota : Option TokenQuota) (a : Artifact)
    → artifact_for (some gw) tp quota ≡ ok (some a)
    → Annotated (quota_or_empty quota) a.annotations
unfolding build_envoy build_kuadrant base_meta
artifact_for-Annotated gw tp quota a h =
    let (t, built) = artifact_for-BuiltFor gw tp quota a h in
    elim built [
      | inl (e, f) ↦ rw f (annotate_quota-Annotated quota)
      | inr (e, f) ↦ rw f (annotate_quota-Annotated quota)
    ]
