-- ===== src/Mpi.antt =====
-- The message-passing layer: src/mpi.cc with include/mpi.hpp, over the sockets of one process.
mod Examples
pub mod Machine
pub mod Loop
pub mod Memory
pub mod Steps
pub mod Rank
pub mod Peers
pub mod PointToPoint
pub mod Collective
pub mod Fan
pub mod Bcast
pub mod Ring
pub mod Allgather
pub mod Alltoall
pub mod Gather
pub mod Reduce
pub mod Allgatherv
