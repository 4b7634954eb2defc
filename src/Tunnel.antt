-- ===== src/Tunnel.antt =====
-- The loop that drives the module, source/main_switch.c.
pub mod Fetch
pub mod Loop
pub mod Turn
pub mod Recovery
pub mod Rebuild
pub mod Strays
pub mod Status
