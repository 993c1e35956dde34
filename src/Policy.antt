-- ===== src/Policy.antt =====
-- internal/policy/resolver.go: the effective-policy resolver.
pub mod Samples
mod Tests
pub mod Glob
pub mod Quota
pub mod Selector
pub mod Tier
pub mod Effective
pub mod Apply
pub mod Resolve
