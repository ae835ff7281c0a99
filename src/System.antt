-- ===== src/System.antt =====
-- The board and the agent together: NB-IoT_node.ino with its driver at one end of the network, and
-- the agent at the other.
pub mod Onboarding
pub mod Network
pub mod Ready
pub mod Safety
pub mod Drain
