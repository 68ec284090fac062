-- ===== src/Stream.antt =====
-- The five paginated queries: GetBalancesStream (pkg/provenance/bank.go), GetAttributesStream and
-- GetAttributedAccountsStream (attribute.go), GetStakingValidatorsStream and
-- GetDelegationsByDelegatorStream (staking.go). Each starts a goroutine that fetches page after page
-- and sends the items over a buffered channel; an error goes over a second channel of capacity 1.
pub mod Channel
pub mod Fetched
pub mod Invariant
pub mod Collect
pub mod Watch
pub mod Watched
pub mod Safety
pub mod Queries
pub mod Progress
pub mod Lost
