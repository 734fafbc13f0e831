-- ===== src/Tests.antt =====
-- The theorems at concrete inputs, and runs of the models, over two small streams.
mod Streams
mod Io
mod Codec
mod Websocket
mod Http
mod Base64
mod Texts
mod Socks5
mod Latch
mod Awaiters
mod Logger
mod Split
mod Task
mod Echo
