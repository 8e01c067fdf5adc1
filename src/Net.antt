-- ===== src/Net.antt =====
-- The modules under src/net/: the list of networks, transfers by cURL, and the operations on the
-- network repository.
pub mod NetworkList
pub mod Curl
pub mod Ops
pub mod Ifs
pub mod Tests
