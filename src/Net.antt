-- ===== src/Net.antt =====
-- net/: what its components keep between the calls of the network library.
pub mod TimerList
pub mod Rpc
pub mod IpEncoding
pub mod IcmpClient
pub mod Types
pub mod Http
