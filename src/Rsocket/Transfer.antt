-- ===== src/Rsocket/Transfer.antt =====
-- send_, irecv_ and recv_ of rsocket/src/rdma_socket.cpp.
use ffrdma.Common.{
  ℕ, zero, suc, true, Option, none, some, List, [], ◌∷◌, ◌++◌, ℤ, pos, negsuc, ◌-ℤ◌, leb_ℤ, eqb_ℤ,
  if◌then◌else◌, length,
}
use ffrdma.Mpi.Machine.{Bytes, AMessage, read}
use ffrdma.Rsocket.Machine.{
  MetaData, metadata_normal, Wc, Sock, done, fault, blocked, M, pure, ◌>>=◌, ◌>>◌, stop, gets,
  modify, test, try_close_lock, count_up, wc_send, wc_rdma_read, wc_recv, wc_other,
}
use ffrdma.Rsocket.Poll.{poll_wc, wait_sent, post_send_wr, dereg_metadata, rounds}
use ffrdma.Rsocket.Handle.{resolve_wr_queue, succeeded}

abbrev pub demand : {A : Type 0} → Option A → M A
demand none = stop fault
demand (some a) = pure a

-- The copy of the message, its registration, and the metadata that announces it.
unfoldable pub export_copy : AMessage → Bytes → M MetaData
export_copy msg bytes s =
    done
      (record {
        type = metadata_normal;
        flag = msg.flag;
        length = length bytes;
        msg_addr = s.next;
        mr_addr = suc s.next;
        rkey = s.key (suc s.next);
      })
      (record s {
        next = suc (suc s.next);
        exported = s.exported ++ (record { mr = suc s.next; addr = s.next; bytes = bytes } ∷ []);
      })

abbrev pub empty_metadata : AMessage → MetaData
empty_metadata msg = record {
  type = metadata_normal;
  flag = msg.flag;
  length = 0;
  msg_addr = 0;
  mr_addr = 0;
  rkey = 0;
}

unfoldable pub prepare : AMessage → M MetaData
unfolding read
prepare msg =
    if eqb_ℤ msg.length (pos 0)
    then pure (empty_metadata msg)
    else (do bytes ← demand (read msg.buffer msg.length); test; export_copy msg bytes)

-- With no buffer left at the peer one event is awaited, whatever it brings.
unfoldable pub await_buffer : M (Unit {0})
await_buffer = do
  count ← gets (λ s. s.peer_buff_count)
  (if leb_ℤ count (pos 0) then (poll_wc >> pure tt) else pure tt)

abbrev pub note_close : ℤ → Sock → Sock
note_close flag s = if eqb_ℤ flag (negsuc 0) then record s { close_flag = true } else s

unfoldable pub set_close_flag : ℤ → M (Unit {0})
set_close_flag flag = modify (note_close flag)

unfoldable pub announce : MetaData → M (Unit {0})
announce metadata =
    post_send_wr metadata >> modify (λ s. record s { peer_buff_count = s.peer_buff_count -ℤ pos 1 })

-- After the metadata has gone out.
unfoldable pub count_sent : M ℤ
count_sent = do
  dereg_metadata
  modify (λ s. record s {
    metadata_counter = count_up s.metadata_counter;
    sent_count = suc s.sent_count;
  })
  flag ← resolve_wr_queue
  set_close_flag flag
  pure (pos 0)

unfoldable pub send_open : AMessage → M ℤ
send_open msg = do
  metadata ← prepare msg
  await_buffer
  announce metadata
  wc ← wait_sent
  (if succeeded wc then count_sent else pure (negsuc 0))

unfoldable pub send_ : AMessage → M ℤ
send_ msg = do closing ← try_close_lock; (if closing then pure (negsuc 0) else send_open msg)

-- The loop on ibv_poll_cq with no event: all but send and read completions are kept.
unfoldable pub kept : List Wc → List Wc
kept [] = []
kept (wc ∷ wcs) = elim wc.opcode [
  | wc_send ↦ kept wcs
  | wc_rdma_read ↦ kept wcs
  | wc_recv ↦ wc ∷ kept wcs
  | wc_other ↦ wc ∷ kept wcs
]

abbrev pub drained : List (List Wc) → M (Unit {0})
drained [] s = done tt s
drained (wcs ∷ rest) s =
    done tt (record s {
      ready = rest;
      wr_queue = s.wr_queue ++ kept wcs;
      arrived = s.arrived ++ kept wcs;
    })

unfoldable pub drain_ready : M (Unit {0})
drain_ready s = drained s.ready s

-- queue_pop of recv_queue, none being NULL
abbrev pub take_message : List AMessage → M (Option AMessage)
take_message [] s = done none s
take_message (m ∷ ms) s = done (some m) (record s { recv_queue = ms })

unfoldable pub pop_message : M (Option AMessage)
pop_message s = take_message s.recv_queue s

-- A trylock whose result does not change what is returned.
unfoldable pub irecv_popped : Option AMessage → M (Option AMessage)
irecv_popped (some m) = pure (some m)
irecv_popped none = try_close_lock >> pure none

unfoldable pub irecv_resolved : ℤ → M (Option AMessage)
irecv_resolved flag =
    if eqb_ℤ flag (negsuc 0)
    then (set_close_flag flag >> pure none)
    else (pop_message >>= irecv_popped)

unfoldable pub irecv_ : M (Option AMessage)
irecv_ = do
  closing ← try_close_lock
  (if closing then pure none else (do drain_ready; flag ← resolve_wr_queue; irecv_resolved flag))

-- while (flag == 1): none where poll_wc returns -1, which ends recv_ with NULL.
unfoldable pub wait_message : ℕ → ℤ → M (Option ℤ)
wait_message zero flag = stop blocked
wait_message (suc fuel) flag =
    let again =
      (poll_wc >>= λ (polled, _).
      if eqb_ℤ polled (negsuc 0) then pure none else (resolve_wr_queue >>= wait_message fuel)) in
    if eqb_ℤ flag (pos 1) then again else pure (some flag)

unfoldable pub recv_waited : Option ℤ → M (Option AMessage)
recv_waited none = pure none
recv_waited (some flag) = set_close_flag flag >> pop_message

-- close_lock is taken here and given back only where close_flag is not set.
unfoldable pub recv_idle : ℤ → M (Option AMessage)
recv_idle flag = do
  closing ← try_close_lock
  closed ← gets (λ s. s.close_flag)
  fuel ← gets rounds
  (if closing
      then pure none
      else (if closed
          then (modify (λ s. record s { self_locked = true }) >> pure none)
          else (wait_message fuel flag >>= recv_waited)))

unfoldable pub recv_popped : ℤ → Option AMessage → M (Option AMessage)
recv_popped flag (some m) = pure (some m)
recv_popped flag none = recv_idle flag

unfoldable pub recv_open : M (Option AMessage)
recv_open = do
  drain_ready
  flag ← resolve_wr_queue
  set_close_flag flag
  m ← pop_message
  recv_popped flag m

unfoldable pub recv_ : M (Option AMessage)
recv_ = do closing ← try_close_lock; (if closing then pure none else recv_open)
