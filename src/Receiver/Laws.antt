-- ===== src/Receiver/Laws.antt =====
-- What the queue of the receiver of rsocket/src/receiver.cpp holds after any turns of the threads.
use ffrdma.Common.{ℕ, ◌≡◌, List, ◌++◌}
use ffrdma.Mpi.Machine.{AMessage}
use ffrdma.Receiver.{Turn, Receiver}
use ffrdma.Receiver.Parts.{AllGroups, IsOpen, joined, whole_of, turns_of}

-- The receiver's queue is a sequence of groups, each of one socket: a whole message, or what the
-- socket's thread has handed on at its end; those of a socket and the parts that wait are what the
-- socket has received, in order; and more parts follow those that wait.
pub record IsDelivered (turns : List (ℕ × Turn)) (r : Receiver) : Type 0 where
  pub messages : List (ℕ × List AMessage)
  pub together : r.recv_queue ≡ joined messages
  pub groups : AllGroups turns messages
  pub in_order : (sock : ℕ) → whole_of sock messages ++ r.more_queue sock ≡ turns_of sock turns
  pub open_parts : (sock : ℕ) → IsOpen (r.more_queue sock)
