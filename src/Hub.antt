-- ===== src/Hub.antt =====
-- main.go, the hub: live connections, presence, routing, kicks.
pub mod Conn
pub mod Loop
pub mod Presence
pub mod Members
pub mod Route
pub mod Invariant
pub mod Devices
pub mod Broadcast
pub mod Steps
pub mod Delivery
pub mod Greet
pub mod Reach
pub mod Safety
pub mod Middle
pub mod Grace
pub mod Join
pub mod Pump
mod Tests
