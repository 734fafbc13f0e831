-- ===== src/Net.antt =====
-- The parts of uvio/net.
pub mod TcpStream
pub mod Endian
pub mod HttpServer
pub mod Websocket
pub mod Dns
pub mod Listener
