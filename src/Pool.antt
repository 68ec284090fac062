-- ===== src/Pool.antt =====
-- The client of the lending pool's contract (pkg/demoprime/pool).
pub mod Json
pub mod Text
pub mod Reader
pub mod Sent
pub mod Settings
pub mod Bodies
pub mod Received
pub mod Bytes
pub mod Messages
pub mod Requests
pub mod Exec
pub mod Events
pub mod Block
pub mod Types
pub mod Metadata
pub mod Responses
pub mod Located
pub mod Receive
pub mod Wasm
pub mod Methods
pub mod Success
pub mod Kinds
pub mod Calls
pub mod Read
pub mod Reported
pub mod Keys
pub mod Decimal
pub mod Forward
pub mod Hook
pub mod Withdrawn
pub mod QueryTypes
pub mod Queries
