-- ===== src/Network.antt =====
-- internal/network: transfers between peers, who is let in, and who is connected.
pub mod State
pub mod Transfer
pub mod Access
pub mod Receive
pub mod Handshake
pub mod Peers
pub mod Calls
pub mod Share
pub mod Identity
