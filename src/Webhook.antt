-- ===== src/Webhook.antt =====
-- internal/webhook/vaultunsealer_webhook.go, the admission of an object.
pub mod Addresses
pub mod Fields
pub mod Names
pub mod References
pub mod Spec
