-- ===== src/TestServer.antt =====
-- src/pyads/testserver: the AMS/TCP server that the tests of the package run against.
pub mod Packet
pub mod Variable
pub mod Store
pub mod Advanced
pub mod Basic
pub mod Serve
