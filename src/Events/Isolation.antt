-- ===== src/Events/Isolation.antt =====
-- A request of one client leaves the subscriptions of every other client as they were.
pub mod Removal
pub mod Quiet
pub mod Addition
