-- ===== src/Contract.antt =====
-- What the base client of a contract (pkg/demoprime/contract) asks and reads beside BroadcastMsgs,
-- which is in Client/Submit: the authz grants, and the attributes of a transaction.
pub mod Grants
pub mod Granted
pub mod Attrs
pub mod Store
pub mod Stored
pub mod Height
pub mod Base
pub mod Granting
