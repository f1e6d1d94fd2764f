-- ===== src/Net/Rpc.antt =====
-- net/rpc/: calls over datagrams.
-- A message is cut into fragments (Fragments), each enciphered and sent behind a header (Wire), and
-- put together from whatever arrives (Assembly). Client and Server do both, one for requests and
-- the other for responses.
pub mod Wire
pub mod Fragments
pub mod Assembly
pub mod OperationKey
pub mod Client
pub mod Server
pub mod RoundTrip
