-- ===== src/Session.antt =====
-- The session layer, source/awg_session.c and source/awg_session.h.
pub mod Window
pub mod State
pub mod Send
pub mod Receive
pub mod Trace
pub mod Deadlines
pub mod Delivery
