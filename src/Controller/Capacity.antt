-- ===== src/Controller/Capacity.antt =====
-- internal/controller/modelcredential_controller.go: the planning rollup of a credential, from the
-- policies that name it to the capacity that is left.
pub mod Allocation
pub mod Planning
pub mod Binding
use token_control.Common.{
  Bool, true, false, ◌&&◌, ◌||◌, List, [], ◌∷◌, ◌++◌, Option, none, some, any, if◌then◌else◌,
}
use token_control.Common.Int.{ℤ, pos, negsuc, ltb_ℤ, add64, sub64}
use token_control.Common.Result.{Result, ok, ◌>>=◌}
use token_control.Common.Sort.{sort}
use token_control.Text.{Text, ◌==◌, before, codes}
use token_control.Api.{TokenQuota, CredentialReference, ModelPermission}
use token_control.Api.Policies.{ClusterTokenPolicy, TokenPolicy}
use token_control.Policy.Apply.{cluster_source, policy_source}

abbrev pub empty_quota : TokenQuota
empty_quota = record {
  tokens_per_minute = none;
  requests_per_minute = none;
  tokens_per_day = none;
  tokens_per_month = none;
}

abbrev pub quota_or_empty : Option TokenQuota → TokenQuota
quota_or_empty none = empty_quota
quota_or_empty (some q) = q

abbrev pub is_nil_ptr : Option ℤ → Bool
is_nil_ptr none = true
is_nil_ptr (some x) = false

unfoldable pub normalize_quota : Option TokenQuota → Option TokenQuota
normalize_quota none = none
normalize_quota (some q) =
    if is_nil_ptr q.tokens_per_minute
      && (is_nil_ptr q.requests_per_minute
          && (is_nil_ptr q.tokens_per_day && is_nil_ptr q.tokens_per_month))
    then none
    else some q

-- The record that `mapQuota2` normalizes.
abbrev pub map_fields : (Option ℤ → Option ℤ → Option ℤ) → TokenQuota → TokenQuota → TokenQuota
map_fields op a b = record {
  tokens_per_minute = op a.tokens_per_minute b.tokens_per_minute;
  requests_per_minute = op a.requests_per_minute b.requests_per_minute;
  tokens_per_day = op a.tokens_per_day b.tokens_per_day;
  tokens_per_month = op a.tokens_per_month b.tokens_per_month;
}

unfoldable pub map_quota2 :
    (Option ℤ → Option ℤ → Option ℤ) → Option TokenQuota → Option TokenQuota → Option TokenQuota
map_quota2 op a b = normalize_quota (some (map_fields op (quota_or_empty a) (quota_or_empty b)))

-- The closure of `addQuota`.
unfoldable pub add_ptr : Option ℤ → Option ℤ → Option ℤ
add_ptr none none = none
add_ptr none (some y) = some y
add_ptr (some x) none = some x
add_ptr (some x) (some y) = some (add64 x y)

unfoldable pub add_quota : Option TokenQuota → Option TokenQuota → Option TokenQuota
add_quota = map_quota2 add_ptr

abbrev pub floor_zero : ℤ → ℤ
floor_zero v = if ltb_ℤ v (pos 0) then pos 0 else v

abbrev pub used_of : Option ℤ → ℤ
used_of none = pos 0
used_of (some v) = v

-- The closure of `availableQuota`.
unfoldable pub available_ptr : Option ℤ → Option ℤ → Option ℤ
available_ptr none av = none
available_ptr (some cv) av = some (floor_zero (sub64 cv (used_of av)))

unfoldable pub available_quota : Option TokenQuota → Option TokenQuota → Option TokenQuota
available_quota = map_quota2 available_ptr

-- The closure `over` of `oversubscribed`.
abbrev pub over : Option ℤ → Option ℤ → Bool
over none av = false
over (some cv) none = false
over (some cv) (some av) = ltb_ℤ cv av

unfoldable pub oversubscribed : Option TokenQuota → Option TokenQuota → Bool
oversubscribed none allocated = false
oversubscribed (some c) none = false
oversubscribed (some c) (some a) =
    over c.tokens_per_minute a.tokens_per_minute
    || (over c.requests_per_minute a.requests_per_minute
        || (over c.tokens_per_day a.tokens_per_day || over c.tokens_per_month a.tokens_per_month))

abbrev pub names : Option CredentialReference → Text → Bool
names none name = false
names (some c) name = c.name == name

unfoldable pub models_reference : List ModelPermission → Text → Bool
models_reference models name = any (λ m. names m.credential_ref name) models

-- `set` and `allocated` of `referencingPolicies`.
pub record Rollup : Type 0 where
  pub set : List Text
  pub allocated : Option TokenQuota

unfoldable pub add_reference : Bool → Text → Option TokenQuota → Rollup → Rollup
add_reference binds key quota r =
    if binds
    then if any (λ s. key == s) r.set
      then r
      else record { set = key ∷ r.set; allocated = add_quota r.allocated quota }
    else r

abbrev pub cluster_binds : ClusterTokenPolicy → Text → Bool
cluster_binds p name =
    names p.spec.default_credential_ref name || models_reference p.spec.models name

-- The two loops over the listed policies.
unfoldable pub roll_up :
    {A : Type 0} → (A → Bool) → (A → Text) → (A → Option TokenQuota) → Rollup → List A → Rollup
roll_up binds source quota r [] = r
roll_up binds source quota r (p ∷ ps) =
    roll_up binds source quota (add_reference (binds p) (source p) (quota p) r) ps

abbrev pub add_cluster_policies : Text → Rollup → List ClusterTokenPolicy → Rollup
add_cluster_policies name = roll_up (λ p. cluster_binds p name) cluster_source (λ p. p.spec.quota)

abbrev pub add_policies : Text → Rollup → List TokenPolicy → Rollup
add_policies name =
    roll_up (λ p. models_reference p.spec.models name) policy_source (λ p. p.spec.quota)

-- What `referencingPolicies` returns for the policies that it lists.
unfoldable pub summarize :
    Text → List ClusterTokenPolicy → List TokenPolicy → List Text × Option TokenQuota
summarize name clusters policies =
    let r : Rollup =
      add_policies name
        (add_cluster_policies name (record { set = []; allocated = some empty_quota }) clusters)
        policies in
    (sort before r.set, normalize_quota r.allocated)

-- `referencingPolicies`, from the answers of the client to the two lists.
unfoldable pub referencing_policies :
    Text
    → Result Text (List ClusterTokenPolicy)
    → Result Text (List TokenPolicy)
    → Result Text (List Text × Option TokenQuota)
referencing_policies name listed_clusters listed_policies = do
  clusters ← listed_clusters
  policies ← listed_policies
  ok (summarize name clusters policies)

-- The condition Oversubscribed, by its reason.
pub data Oversubscription : Type 0 where
  no_capacity_declared allocation_exceeds_capacity within_capacity : Oversubscription

-- The status, and the three gauges of internal/metrics that are set with it. A gauge is a float64 in
-- the code; here it is the int64 that it is converted from.
pub record CapacityStatus : Type 0 where
  pub allocated : Option TokenQuota
  pub available : Option TokenQuota
  pub oversubscription : Oversubscription
  pub capacity_gauge : ℤ
  pub allocated_gauge : ℤ
  pub oversubscribed_gauge : ℤ

unfoldable pub quota_tpm : Option TokenQuota → ℤ
quota_tpm q = used_of (quota_or_empty q).tokens_per_minute

-- What `reconcileCapacity` writes.
unfoldable pub reconcile_capacity : Option TokenQuota → Option TokenQuota → CapacityStatus
reconcile_capacity none allocated = record {
  allocated = allocated;
  available = none;
  oversubscription = no_capacity_declared;
  capacity_gauge = pos 0;
  allocated_gauge = quota_tpm allocated;
  oversubscribed_gauge = pos 0;
}
reconcile_capacity (some c) allocated =
    let over = oversubscribed (some c) allocated in
    record {
      allocated = allocated;
      available = available_quota (some c) allocated;
      oversubscription = if over then allocation_exceeds_capacity else within_capacity;
      capacity_gauge = quota_tpm (some c);
      allocated_gauge = quota_tpm allocated;
      oversubscribed_gauge = if over then pos 1 else pos 0;
    }
