-- ===== src/Metadata.antt =====
-- Scopes, sessions and records of the metadata module (pkg/provenance/metadata.go, types.go).
pub mod Types
pub mod Scopes
pub mod Created
