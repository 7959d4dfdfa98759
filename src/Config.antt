-- ===== src/Config.antt =====
-- The configuration (src/config.cpp): the order of stored versions and the migrations it decides.
pub mod Model
pub mod Numbers
pub mod Accel
pub mod Sanitize
pub mod Migrate
pub mod Version
