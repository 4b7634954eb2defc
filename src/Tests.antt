-- ===== src/Tests.antt =====
-- Concrete inputs for the theorems: a toy instance of the primitives with its laws, and a
-- configuration.
pub mod Toy
pub mod Handshakes
pub mod Packets
pub mod Sessions
pub mod Timers
pub mod Names
pub mod Connections
pub mod Templates
pub mod Probes
pub mod Fetches
pub mod Files
pub mod Loops
