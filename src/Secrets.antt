-- ===== src/Secrets.antt =====
-- internal/secrets/loader.go
pub mod Loader
pub mod Keys
