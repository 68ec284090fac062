-- ===== src/Marker.antt =====
-- The value of a marker's account (pkg/provenance/marker.go): the balances come from the stream of
-- GetBalancesStream, and a pool of workers asks for the values.
pub mod Account
pub mod Valuation
pub mod Bags
pub mod Denoms
pub mod Worth
pub mod Invariant
pub mod Shut
pub mod Sound
pub mod Empty
