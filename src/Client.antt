-- ===== src/Client.antt =====
-- `ProvenanceClient` (pkg/provenance/prov.go): its state, the sequence number of its account, and
-- the signing, sending and awaiting of transactions.
pub mod Monad
pub mod Defs
pub mod Submit
pub mod Mutex
pub mod Locked
pub mod Kept
pub mod Interleaved
pub mod Sequence
pub mod Signing
pub mod Sending
pub mod Waiting
pub mod Transact
pub mod Setup
pub mod Ready
pub mod Balance
pub mod Services
