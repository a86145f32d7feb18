-- ===== src/Net.antt =====
-- src/net/: the clients of the node and of Stratum pools, on sockets that are arguments.
pub mod Base64
pub mod Send
pub mod StratumClient
pub mod RpcClient
