-- ===== src/Entry.antt =====
-- cmd/main.go: the configuration of the servers and the start of the manager.
pub mod Slices
pub mod Boot
pub mod Main
