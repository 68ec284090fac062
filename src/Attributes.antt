-- ===== src/Attributes.antt =====
-- `AddAttributes` (pkg/provenance/attribute.go): new attributes are checked one by one, gathered in
-- batches, and each batch is one transaction.
pub mod Defs
pub mod Batches
pub mod System
pub mod Prepared
pub mod Reported
pub mod Batched
pub mod Added
pub mod Progress
pub mod Renderer
