-- ===== src/Examples.antt =====
-- The example programs (examples/bank, connect, tendermint, tx). `streamBalances` of examples/bank is in
-- Stream/Watch, the registry loader in Registry.
pub mod Programs
pub mod Waited
