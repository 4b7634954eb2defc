-- ===== src/Proxy.antt =====
-- The transparent proxy, source/awg_proxy.c.
pub mod Sni
pub mod Host
pub mod Connection
pub mod Table
pub mod Poll
