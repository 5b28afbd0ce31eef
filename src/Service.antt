-- ===== src/Service.antt =====
-- The services (internal/service): delivery with its retries and rotation, and the acceptance of
-- webhooks.
pub mod Backoff
pub mod Delivery
pub mod Rotation
pub mod Splitting
pub mod Messages
pub mod Fingerprint
pub mod Alerts
pub mod Run
