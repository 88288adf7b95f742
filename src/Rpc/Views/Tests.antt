-- ===== src/Rpc/Views/Tests.antt =====
-- rpc/solana/mod.rs: the methods over the connection task and a server of a chain with one account.
use noir_sidecar.Rpc.Views.Methods.{Views}
