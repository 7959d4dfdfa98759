-- ===== src/Hidpp/Transport.antt =====
-- HidppTransport of src/logitech_hidpp.cpp, one module to a group of its methods.
pub mod State
pub mod Monad
pub mod Request
pub mod Register
pub mod Notify
pub mod Discovery
pub mod Info
pub mod Battery
pub mod Pairing
pub mod Dpi
pub mod Rate
pub mod Onboard
pub mod Controls
pub mod Identify
pub mod Waiting
pub mod Answers
pub mod Effects
pub mod Cache
pub mod Sectors
pub mod Drain
pub mod Replies
pub mod Writing
