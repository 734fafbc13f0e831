-- ===== src/Io.antt =====
-- The parts of uvio/io.
pub mod Buffer
pub mod Source
pub mod Split
pub mod BufReader
pub mod Sink
pub mod BufWriter
pub mod Ports
