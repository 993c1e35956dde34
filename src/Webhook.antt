-- ===== src/Webhook.antt =====
-- internal/webhook/v1alpha1: the admission webhooks of pods, and what they share.
mod Tests
pub mod Samples
pub mod Cluster
pub mod Pod
pub mod Declared
pub mod Validate
pub mod Deliver
pub mod Inject
pub mod Admit
pub mod Request
