-- ===== src/Registry.antt =====
-- The registry loader (examples/registry/loader.go): its entries go to the chain in slices of 15.
pub mod Slices
pub mod Update
pub mod Loaded
pub mod Files
pub mod Stored
pub mod Command
pub mod Main
pub mod Roundtrip
