-- ===== src/Controller.antt =====
-- internal/controller/vaultunsealer_controller.go
pub mod Conditions
pub mod Connection
pub mod Identifiers
pub mod Pods
pub mod Reconcile
pub mod Lifecycle
pub mod History
pub mod Isolation
