-- ===== src/Udp.antt =====
-- Package udp: the traffic generator and its receiver.
pub mod Payload
pub mod Rate
pub mod Recv
pub mod Sock
pub mod Send
pub mod Port
pub mod Setup
pub mod Measure
