-- ===== src/Hidpp.antt =====
-- The Logitech HID++ client of src/logitech_hidpp.cpp, one module to a part.
pub mod Bytes
pub mod Packet
pub mod Rate
pub mod Dpi
pub mod Battery
pub mod Notification
pub mod Features
pub mod Event
pub mod Records
pub mod Header
pub mod Transport
