-- ===== src/Net/Http.antt =====
-- net/http/: requests and responses over connections that are kept.
pub mod Client
pub mod Server
