-- ===== src/Settings.antt =====
-- The configuration file, source/awg_config.c. A string is the list of its bytes before the final
-- zero; memory is taken to be there.
pub mod Names
pub mod Text
pub mod Values
pub mod Addresses
pub mod Keys
pub mod Load
pub mod Fields
pub mod Loaded
pub mod Lines
