-- ===== src/Rsocket/Examples.antt =====
-- A connection on which one message arrives and one is sent.
use ffrdma.Rsocket.Agree.{recv-irecv}
use ffrdma.Rsocket.Closing.{
  lock_for_good, collect_ready, close_all, close_handle, free_closed, handle_disconnect, await_acks,
  poll_while_receiving, post_close, send_close_md,
}
use ffrdma.Rsocket.Locked.{IsShut, handle_disconnect-IsShut, closed, locked_out, recv_closed-locks}
use ffrdma.Rsocket.Machine.{
  Out, died, fault, blocked, try_close_lock, test, pure, gets, modify, stop, ◌>>=◌,
}
use ffrdma.Mpi.Machine.{read}
use ffrdma.Rsocket.Poll.{
  poll_wc, get_cq_event, drain_event, push_wcs, last_send, receives, poll_until_sent, wait_sent,
  post_recv, post_send, post_send_wr, dereg_metadata,
}
use ffrdma.Rsocket.Handle.{
  resolve_wr_queue, resolve_loop, resolve_next, resolve_stat, recv_wc_handle, dispatch,
  handle_normal, handle_ack, free_acked, free_copy, without_region, fetch, create_read,
  create_empty, acknowledge, send_ack, push_message, pop_wc,
}
use ffrdma.Rsocket.Transfer.{
  irecv_, irecv_resolved, irecv_popped, recv_, recv_open, recv_popped, recv_idle, recv_waited,
  wait_message, drain_ready, pop_message, set_close_flag, send_, send_open, prepare, export_copy,
  await_buffer, announce, count_sent, kept,
}
use ffrdma.Rsocket.Start.{post_buffers, post_recv_wr}
use ffrdma.Common.{ℕ, ◌≡◌, refl, true, false, none, some, [], ◌∷◌, pos, negsuc}
use ffrdma.Mpi.Machine.{AMessage, Bytes}
use ffrdma.Rsocket.Machine.{
  Sock, Wc, MetaData, metadata_normal, metadata_ack, wc_send, wc_rdma_read, wc_recv, done,
}
use ffrdma.Rsocket.Start.{
  build_connection, Reaches, at_start, after, call_send, call_recv, run_call,
}
use ffrdma.Rsocket.Order.{IsOrdered}
use ffrdma.Rsocket.Balance.{IsBalanced}
use ffrdma.Rsocket.Reached.{messages_in_order, counters-IsBalanced}
use ffrdma.Rsocket.Close.{IsClosing, send_close_md-IsClosing}

abbrev memory : ℕ → ℕ → Bytes
memory addr n = addr ∷ (7 ∷ [])

abbrev arriving : MetaData
arriving = record {
  type = metadata_normal;
  flag = 3;
  length = 2;
  msg_addr = 400;
  mr_addr = 401;
  rkey = 9;
}

abbrev sent : Wc
sent = record { opcode = wc_send; status = 0; rinfo = 0; md_buffer = arriving }

abbrev read_done : Wc
read_done = record { opcode = wc_rdma_read; status = 0; rinfo = 0; md_buffer = arriving }

abbrev received : MetaData → Wc
received md = record { opcode = wc_recv; status = 0; rinfo = 1000; md_buffer = md }

abbrev ack_of_first : MetaData
ack_of_first = record {
  type = metadata_ack;
  flag = 0;
  length = 2;
  msg_addr = 1051;
  mr_addr = 1052;
  rkey = 5;
}

-- The peer's message arrives; it is read and acknowledged; then a message of this side goes out and
-- is acknowledged.
abbrev before : Sock
before = record {
  close_flag = true;
  recv_queue = [];
  wr_queue = [];
  peer_buff_count = negsuc 4;
  ack_counter = 77;
  metadata_counter = 3;
  node_id = 5;
  events =
      some (received arriving ∷ [])
      ∷ (some (read_done ∷ [])
          ∷ (some (sent ∷ [])
              ∷ (none ∷ (some (sent ∷ []) ∷ (some (sent ∷ (received ack_of_first ∷ [])) ∷ [])))));
  ready = [];
  locks = [];
  self_locked = true;
  checks = [];
  remote = memory;
  key = λ mr. 5;
  next = 1000;
  exported = [];
  mrs = 0;
  out = [];
  posted = [];
  sent_count = 0;
  acked_count = 0;
  arrived = [];
}

abbrev mine : AMessage
mine = record {
  self = 1;
  buffer = 4 ∷ (5 ∷ []);
  flag = 0;
  length = pos 2;
  if_free_buffer = false;
  node_id = 0;
}

abbrev state : {A : Type 0} → Out A → Sock
state (done a s) = s
state died = before
state fault = before
state blocked = before

abbrev theirs : AMessage
theirs = record {
  self = 1050;
  buffer = 400 ∷ (7 ∷ []);
  flag = 3;
  length = pos 2;
  if_free_buffer = true;
  node_id = 5;
}

abbrev built : Sock
built = state (build_connection 5 before)

abbrev after_recv : Sock
after_recv = state (run_call call_recv built)

abbrev after_send : Sock
after_send = state (run_call (call_send mine) after_recv)

build_connection_returns : build_connection 5 before ≡ done tt built
unfolding build_connection post_buffers post_recv_wr post_recv run_call recv_ recv_open recv_popped
    recv_idle recv_waited wait_message drain_ready pop_message set_close_flag resolve_wr_queue
    resolve_loop resolve_next resolve_stat recv_wc_handle dispatch handle_normal handle_ack
    free_acked free_copy without_region fetch create_read create_empty acknowledge send_ack
    push_message pop_wc poll_wc get_cq_event drain_event push_wcs last_send receives poll_until_sent
    wait_sent post_send post_send_wr dereg_metadata send_ send_open prepare export_copy await_buffer
    announce count_sent kept try_close_lock test pure gets modify stop read ◌>>=◌
build_connection_returns = refl

recv_returns : run_call call_recv built ≡ done (some theirs) after_recv
unfolding build_connection post_buffers post_recv_wr post_recv run_call recv_ recv_open recv_popped
    recv_idle recv_waited wait_message drain_ready pop_message set_close_flag resolve_wr_queue
    resolve_loop resolve_next resolve_stat recv_wc_handle dispatch handle_normal handle_ack
    free_acked free_copy without_region fetch create_read create_empty acknowledge send_ack
    push_message pop_wc poll_wc get_cq_event drain_event push_wcs last_send receives poll_until_sent
    wait_sent post_send post_send_wr dereg_metadata send_ send_open prepare export_copy await_buffer
    announce count_sent kept try_close_lock test pure gets modify stop read ◌>>=◌
recv_returns = refl

send_returns : run_call (call_send mine) after_recv ≡ done none after_send
unfolding build_connection post_buffers post_recv_wr post_recv run_call recv_ recv_open recv_popped
    recv_idle recv_waited wait_message drain_ready pop_message set_close_flag resolve_wr_queue
    resolve_loop resolve_next resolve_stat recv_wc_handle dispatch handle_normal handle_ack
    free_acked free_copy without_region fetch create_read create_empty acknowledge send_ack
    push_message pop_wc poll_wc get_cq_event drain_event push_wcs last_send receives poll_until_sent
    wait_sent post_send post_send_wr dereg_metadata send_ send_open prepare export_copy await_buffer
    announce count_sent kept try_close_lock test pure gets modify stop read ◌>>=◌
send_returns = refl

calls : Reaches built (theirs ∷ []) after_send
calls =
    after (theirs ∷ []) after_recv after_send (call_send mine) none
      (after [] built after_recv call_recv (some theirs) at_start recv_returns) send_returns

messages_in_order_example : IsOrdered memory (theirs ∷ []) [] false after_send
messages_in_order_example =
    messages_in_order before built after_send 5 (theirs ∷ []) build_connection_returns calls

counters-IsBalanced_example : IsBalanced 0 0 after_send
counters-IsBalanced_example =
    counters-IsBalanced before built after_send 5 (theirs ∷ []) build_connection_returns calls

-- One message waits for its acknowledgement.
abbrev waiting : Sock
waiting = record before {
  close_flag = false;
  peer_buff_count = pos 49;
  ack_counter = 0;
  metadata_counter = 1;
  self_locked = false;
  events = some (sent ∷ (received ack_of_first ∷ [])) ∷ [];
  exported = record { mr = 1052; addr = 1051; bytes = 4 ∷ (5 ∷ []) } ∷ [];
  sent_count = 1;
}

abbrev after_close : Sock
after_close = state (send_close_md waiting)

send_close_md_returns : send_close_md waiting ≡ done true after_close
unfolding build_connection post_buffers post_recv_wr post_recv run_call recv_ recv_open recv_popped
    recv_idle recv_waited wait_message drain_ready pop_message set_close_flag resolve_wr_queue
    resolve_loop resolve_next resolve_stat recv_wc_handle dispatch handle_normal handle_ack
    free_acked free_copy without_region fetch create_read create_empty acknowledge send_ack
    push_message pop_wc poll_wc get_cq_event drain_event push_wcs last_send receives poll_until_sent
    wait_sent post_send post_send_wr dereg_metadata send_ send_open prepare export_copy await_buffer
    announce count_sent kept try_close_lock test pure gets modify stop read ◌>>=◌ send_close_md
    await_acks post_close poll_while_receiving
send_close_md_returns = refl

send_close_md-IsClosing_example : IsClosing false after_close
send_close_md-IsClosing_example = send_close_md-IsClosing waiting after_close send_close_md_returns

recv_closed-locks_example :
    (recv_ (closed before) ≡ done none (locked_out before))
    × IsShut mine (locked_out before)
    × (handle_disconnect (locked_out before) ≡ blocked)
recv_closed-locks_example = recv_closed-locks before mine

-- The acknowledgement waits in the completion queue.
abbrev disconnecting : Sock
disconnecting = record waiting { ready = (sent ∷ (received ack_of_first ∷ [])) ∷ [] }

abbrev disconnected : Sock
disconnected = state (handle_disconnect disconnecting)

handle_disconnect-IsShut_example : IsShut mine disconnected
unfolding handle_disconnect lock_for_good collect_ready close_all close_handle free_closed free_copy
    without_region gets modify pure ◌>>=◌
handle_disconnect-IsShut_example = handle_disconnect-IsShut disconnecting disconnected mine refl

abbrev ready_to_run : Sock
ready_to_run = record before { self_locked = false }

-- A message has come and nothing has been read.
abbrev arrived_one : Sock
arrived_one = record before {
  close_flag = false;
  peer_buff_count = pos 50;
  self_locked = false;
  ready = (received arriving ∷ []) ∷ [];
  events = some (read_done ∷ []) ∷ (some (sent ∷ []) ∷ []);
}

abbrev first_message : AMessage
first_message = record theirs { self = 1000 }

abbrev emptied : Sock
emptied = state (irecv_ arrived_one)

irecv_returns : irecv_ arrived_one ≡ done (some first_message) emptied
unfolding build_connection post_buffers post_recv_wr post_recv run_call recv_ recv_open recv_popped
    recv_idle recv_waited wait_message drain_ready pop_message set_close_flag resolve_wr_queue
    resolve_loop resolve_next resolve_stat recv_wc_handle dispatch handle_normal handle_ack
    free_acked free_copy without_region fetch create_read create_empty acknowledge send_ack
    push_message pop_wc poll_wc get_cq_event drain_event push_wcs last_send receives poll_until_sent
    wait_sent post_send post_send_wr dereg_metadata send_ send_open prepare export_copy await_buffer
    announce count_sent kept try_close_lock test pure gets modify stop read ◌>>=◌ irecv_
    irecv_resolved irecv_popped
irecv_returns = refl

recv-irecv_example : recv_ arrived_one ≡ done (some first_message) emptied
recv-irecv_example = recv-irecv arrived_one emptied first_message irecv_returns
