-- ===== src/Tests.antt =====
-- Runs at concrete inputs: each shows that the hypotheses of a theorem can hold together.
mod Sample
mod Stream
mod Client
mod Pool
mod Contract
mod Store
mod Batches
mod Sharing
mod Adding
mod Forward
mod Registry
mod Programs
mod Marker
mod Scopes
