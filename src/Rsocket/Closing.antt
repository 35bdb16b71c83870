-- ===== src/Rsocket/Closing.antt =====
-- send_close_md and the thread wait_for_close of rsocket/src/rdma_socket.cpp, and close_handle of
-- rsocket/src/poll_wc.cpp.
use ffrdma.Rsocket.Handle.{free_copy, resolve_wr_queue}
use ffrdma.Rsocket.Machine.{Opcode, metadata_ack}
use ffrdma.Common.{◌||◌}
use ffrdma.Common.{
  not, ◌==◌, ℕ, zero, suc, Bool, true, false, Option, none, some, List, [], ◌∷◌, ◌++◌, pos, negsuc,
  eqb_ℤ, ltb, if◌then◌else◌,
}
use ffrdma.Rsocket.Machine.{
  MetaData, metadata_close, Wc, done, fault, blocked, M, pure, ◌>>=◌, ◌>>◌, stop, gets, modify,
  try_close_lock, wc_send, wc_rdma_read, wc_recv, wc_other,
}
use ffrdma.Rsocket.Poll.{poll_wc, post_send_wr, dereg_metadata, rounds}
use ffrdma.Rsocket.Handle.{resolve_wr_queue}

-- `wc` is written by some polls and kept by the others.
abbrev pub latest : Option Wc → Option Wc → Option Wc
latest old none = old
latest old (some wc) = some wc

-- while (ack_counter < metadata_counter): false where poll_wc fails, which ends the function; and
-- what stands in `wc`, none if nothing was written.
unfoldable pub await_acks : ℕ → Option Wc → M (Bool × Option Wc)
await_acks zero wc = stop blocked
await_acks (suc fuel) wc = do
  missing ← gets (λ s. ltb s.ack_counter s.metadata_counter)
  (let again =
        (poll_wc >>= λ (polled, new).
        if eqb_ℤ polled (negsuc 0)
        then pure (false, wc)
        else (resolve_wr_queue >> await_acks fuel (latest wc new))) in
      if missing then again else pure (true, wc))

abbrev pub close_metadata : MetaData
close_metadata = record {
  type = metadata_close;
  flag = 0;
  length = 0;
  msg_addr = 0;
  mr_addr = 0;
  rkey = 0;
}

-- while (poll_wc(socket_, &wc) > 0)
unfoldable pub poll_while_receiving : ℕ → Option Wc → M (Option Wc)
poll_while_receiving zero wc = stop blocked
poll_while_receiving (suc fuel) wc = do
  (flag, new) ← poll_wc
  (let again = poll_while_receiving fuel (latest wc new) in
      if eqb_ℤ flag (pos 1) then again else pure (latest wc new))

-- wc.status: a fault where nothing was written to `wc`.
abbrev pub status_ok : Option Wc → M Bool
status_ok none = stop fault
status_ok (some wc) = pure (wc.status == 0)

-- The lock is taken, and given back at the end.
unfoldable pub post_close : Option Wc → M Bool
post_close wc = do
  closing ← try_close_lock
  fuel ← gets rounds
  (if closing then pure false else (do
    modify (λ s. record s { self_locked = true })
    post_send_wr close_metadata
    wc' ← poll_while_receiving fuel wc
    dereg_metadata
    modify (λ s. record s { self_locked = false })
    status_ok wc'))

unfoldable pub send_close_md : M Bool
send_close_md = do
  closing ← try_close_lock
  fuel ← gets rounds
  (if closing
      then pure false
      else (do (acked, wc) ← await_acks fuel none; (if acked then post_close wc else pure false)))

abbrev pub is_recv : Opcode → Bool
is_recv wc_send = false
is_recv wc_rdma_read = false
is_recv wc_recv = true
is_recv wc_other = false

-- ibv_dereg_mr if there is a registration, and free in any case: of NULL it does nothing, of another
-- address without a registration it is a fault.
unfoldable pub free_closed : MetaData → M (Unit {0})
free_closed md =
    if md.mr_addr == 0
    then (if md.msg_addr == 0 then pure tt else stop fault)
    else free_copy md.mr_addr md.msg_addr

-- An acknowledgement frees its copy; wr_id is NULL where `rinfo` is 0.
unfoldable pub close_handle : Wc → M (Unit {0})
close_handle wc =
    if (wc.rinfo == 0) || not (is_recv wc.opcode)
    then pure tt
    else (if wc.md_buffer.type == metadata_ack then free_closed wc.md_buffer else pure tt)

unfoldable pub close_all : List Wc → M (Unit {0})
close_all [] = pure tt
close_all (wc ∷ wcs) = close_handle wc >> close_all wcs

-- All completions, of every kind, go to wr_queue.
abbrev pub collected : List (List Wc) → M (Unit {0})
collected [] s = done tt s
collected (wcs ∷ rest) s =
    done tt (record s { ready = rest; wr_queue = s.wr_queue ++ wcs; arrived = s.arrived ++ wcs })

unfoldable pub collect_ready : M (Unit {0})
collect_ready s = collected s.ready s

-- pthread_mutex_lock(&close_lock), which waits for ever on a lock that stays held.
unfoldable pub lock_for_good : M (Unit {0})
lock_for_good s = if s.self_locked then blocked else done tt (record s { self_locked = true })

-- What wait_for_close does on a disconnection. It does not give the lock back.
unfoldable pub handle_disconnect : M (Unit {0})
handle_disconnect = do
  lock_for_good
  collect_ready
  wcs ← gets (λ s. s.wr_queue)
  modify (λ s. record s { wr_queue = [] })
  close_all wcs
