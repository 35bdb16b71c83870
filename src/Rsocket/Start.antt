-- ===== src/Rsocket/Start.antt =====
-- buildConnection of rsocket/src/init.cpp, and the states that the calls on a socket lead to.
use ffrdma.Common.{ℕ, zero, suc, ◌+◌, ◌≡◌, false, Option, none, some, List, [], ◌∷◌, ◌++◌, pos}
use ffrdma.Mpi.Machine.{AMessage}
use ffrdma.Rsocket.Machine.{Sock, md_buffer_size, M, done, pure, ◌>>=◌, ◌>>◌, gets, modify, test}
use ffrdma.Rsocket.Poll.{post_recv}
use ffrdma.Rsocket.Transfer.{send_, irecv_, recv_}

-- malloc, memset and the node id. What the environment will do and the peer's memory stay.
abbrev pub zeroed : ℕ → Sock → Sock
zeroed node_id s = record s {
  close_flag = false;
  recv_queue = [];
  wr_queue = [];
  peer_buff_count = pos 0;
  ack_counter = 0;
  metadata_counter = 0;
  node_id = node_id;
  self_locked = false;
  exported = [];
  mrs = 0;
  out = [];
  posted = [];
  sent_count = 0;
  acked_count = 0;
  arrived = [];
}

-- The registration of a receive buffer and its posting are checked.
unfoldable pub post_recv_wr : ℕ → M (Unit {0})
post_recv_wr recv_buffer = test >> post_recv recv_buffer

-- The loop that posts `count` receive buffers.
unfoldable pub post_buffers : ℕ → ℕ → M (Unit {0})
post_buffers zero recv_buffer = pure tt
post_buffers (suc count) recv_buffer =
    post_recv_wr recv_buffer >> post_buffers count (suc recv_buffer)

-- Five calls of the verbs library are checked; that of rdma_create_qp only prints.
unfoldable pub build_connection : ℕ → M (Unit {0})
build_connection node_id = do
  modify (zeroed node_id)
  test
  test
  test
  test
  test
  recv_buffer ← gets (λ s. s.next)
  modify (λ s. record s { next = s.next + md_buffer_size })
  post_buffers md_buffer_size recv_buffer
  modify (λ s. record s {
    recv_queue = [];
    wr_queue = [];
    peer_buff_count = pos md_buffer_size;
    ack_counter = 0;
    metadata_counter = 0;
    close_flag = false;
  })

-- A call of the interface, and the message it returns, none for NULL and for send_.
pub data Call : Type 0 where
  call_send : AMessage → Call
  call_irecv : Call
  call_recv : Call

unfoldable pub run_call : Call → M (Option AMessage)
run_call (call_send msg) = send_ msg >> pure none
run_call call_irecv = irecv_
run_call call_recv = recv_

abbrev pub list_of : {A : Type 0} → Option A → List A
list_of none = []
list_of (some a) = a ∷ []

-- `Reaches s taken s'`: calls that return lead from s to s', and the messages they return are
-- `taken`, in order.
pub data Reaches (s : Sock) : List AMessage → Sock → Type 0 where
  at_start : Reaches s [] s
  after :
      (taken : List AMessage) (s' s'' : Sock) (c : Call) (o : Option AMessage)
      → Reaches s taken s'
      → run_call c s' ≡ done o s''
      → Reaches s (taken ++ list_of o) s''
