-- ===== src/Net.antt =====
-- tinyfibers/echo/tinyfibers/net, tinyfibers/echo/echo and asio/echo: sockets and the echo servers.
pub mod Transport
pub mod Socket
pub mod Echo
pub mod Acceptor
pub mod Session
pub mod Server
pub mod Tests
