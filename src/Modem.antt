-- ===== src/Modem.antt =====
-- ATT_NBIOT.cpp, the driver of the NB-IoT modem.
pub mod Object
pub mod Response
pub mod Parsers
pub mod Commands
pub mod Signal
pub mod Connect
pub mod Hex
pub mod Send
pub mod Udp
