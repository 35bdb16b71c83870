-- ===== src/Rsocket.antt =====
-- The reliable socket of rsocket/src: completions, transfers and the counters of a connection.
pub mod Machine
pub mod Keeps
pub mod Poll
pub mod Handle
pub mod Transfer
pub mod Closing
pub mod Stable
pub mod Start
pub mod Balance
pub mod Order
pub mod Reached
pub mod Fuel
pub mod Close
pub mod Locked
pub mod Agree
mod Examples
