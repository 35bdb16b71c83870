-- ===== src/Receiver.antt =====
-- The receiver of rsocket/src/receiver.cpp, which collects the messages of several sockets in one
-- queue, and AMessage_check_sndmore of rsocket/src/amessage.cpp.
pub mod Parts
pub mod Laws
mod Examples
use ffrdma.Common.{
  ℕ, Bool, true, false, Option, none, some, List, [], ◌∷◌, ◌++◌, ◌==◌, if◌then◌else◌,
}
use ffrdma.Mpi.Machine.{AMessage}

abbrev pub snd_more_flag : ℕ
snd_more_flag = 128

abbrev pub check_sndmore : AMessage → Bool
check_sndmore msg = msg.flag == snd_more_flag

-- The queue of the receiver and more_queue of each of its sockets.
pub record Receiver : Type 0 where
  pub recv_queue : List AMessage
  pub more_queue : ℕ → List AMessage

abbrev pub receiver_build : Receiver
receiver_build = record { recv_queue = []; more_queue = λ sock. [] }

abbrev pub with_more : (ℕ → List AMessage) → ℕ → List AMessage → ℕ → List AMessage
with_more more sock ms other = if other == sock then ms else more other

-- The last part goes to the receiver behind the parts that wait, if any.
unfoldable pub deliver : ℕ → AMessage → List AMessage → Receiver → Receiver
deliver sock msg [] r = record r { recv_queue = r.recv_queue ++ (msg ∷ []) }
deliver sock msg (m ∷ ms) r = record {
  recv_queue = r.recv_queue ++ ((m ∷ ms) ++ (msg ∷ []));
  more_queue = with_more r.more_queue sock [];
}

-- A round of recv_process on a socket whose recv_ has returned a message. queue_push and
-- queue_push_q run under the lock of their queue.
unfoldable pub receive : ℕ → AMessage → Receiver → Receiver
receive sock msg r =
    if check_sndmore msg
    then record r { more_queue = with_more r.more_queue sock (r.more_queue sock ++ (msg ∷ [])) }
    else deliver sock msg (r.more_queue sock) r

-- The last round, where recv_ has returned NULL: the parts that wait are handed on, and what the
-- socket has still in its recv_queue.
unfoldable pub receive_end : ℕ → List AMessage → Receiver → Receiver
receive_end sock left r = record {
  recv_queue = (r.recv_queue ++ r.more_queue sock) ++ left;
  more_queue = with_more r.more_queue sock [];
}

-- What recv_ of a socket returns: a message, or NULL, with what the socket has in its recv_queue then.
pub data Turn : Type 0 where
  message : AMessage → Turn
  closed : List AMessage → Turn

unfoldable pub take_turn : ℕ → Turn → Receiver → Receiver
unfolding receive receive_end
take_turn sock (message msg) r = receive sock msg r
take_turn sock (closed left) r = receive_end sock left r

-- The threads of the sockets take turns: each entry is a socket and what its recv_ returns. The
-- thread of a socket ends with NULL, so no entry of that socket follows.
unfoldable pub receive_all : List (ℕ × Turn) → Receiver → Receiver
unfolding take_turn
receive_all [] r = r
receive_all ((sock, turn) ∷ turns) r = receive_all turns (take_turn sock turn r)

-- receiver_recv, none where it waits.
abbrev pub take_received : List AMessage → Receiver → Option (AMessage × Receiver)
take_received [] r = none
take_received (m ∷ ms) r = some (m, record r { recv_queue = ms })

unfoldable pub receiver_recv : Receiver → Option (AMessage × Receiver)
receiver_recv r = take_received r.recv_queue r
