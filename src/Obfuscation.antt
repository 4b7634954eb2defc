-- ===== src/Obfuscation.antt =====
-- The obfuscation templates of source/awg_obf.c.
pub mod Base64
pub mod Parse
pub mod Render
