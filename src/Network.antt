-- ===== src/Network.antt =====
-- libs/network: what a node knows of all elevators, and what it does with the hall orders.
pub mod Costs
pub mod Assign
pub mod Hall
pub mod Peers
pub mod Packet
pub mod Sockets
