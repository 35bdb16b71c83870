-- ===== src/Rsocket/Handle.antt =====
-- recv_wc_handle and resolve_wr_queue of rsocket/src/poll_wc.cpp.
use ffrdma.Common.{
  ◌-◌, ◌^◌, ◌%◌, ltb, ℕ, zero, suc, ◌+◌, Bool, true, false, ◌&&◌, Option, none, some, List, [], ◌∷◌,
  ◌++◌, ℤ, pos, negsuc, ◌+ℤ◌, ◌==◌, if◌then◌else◌, length,
}
use ffrdma.Mpi.Machine.{AMessage}
use ffrdma.Rsocket.Machine.{
  MetaData, metadata_ack, metadata_normal, metadata_close, Wc, Region, Sock, done, fault, blocked,
  M, pure, ◌>>=◌, ◌>>◌, stop, gets, modify, test, count_up,
}
use ffrdma.Rsocket.Poll.{wait_sent, post_recv, post_send, receives}

abbrev pub read_solved : ℕ
read_solved = 8

abbrev pub ack_solved : ℕ
ack_solved = 9

abbrev pub error_wc : ℕ
error_wc = 10

-- wc.status == IBV_WC_SUCCESS, where a completion has been written
abbrev pub succeeded : Option Wc → Bool
succeeded none = false
succeeded (some wc) = wc.status == 0

-- A size_t passed as an int.
abbrev pub to_int : ℕ → ℤ
to_int n =
    if ltb (n % 2 ^ 32) (2 ^ 31) then pos (n % 2 ^ 32) else negsuc (2 ^ 32 - (n % 2 ^ 32) - 1)

-- AMessage_create(malloc(length), ...) and what a remote read puts into the buffer.
unfoldable pub create_read : MetaData → M AMessage
create_read md s = done message (record s { next = suc s.next })
  where
    message : AMessage
    message = record {
      self = s.next;
      buffer = s.remote md.msg_addr md.length;
      flag = md.flag;
      length = to_int md.length;
      if_free_buffer = true;
      node_id = s.node_id;
    }

-- AMessage_create((void *)0x1, ...): nothing can be read there.
unfoldable pub create_empty : MetaData → M AMessage
create_empty md s = done message (record s { next = suc s.next })
  where
    message : AMessage
    message = record {
      self = s.next;
      buffer = [];
      flag = md.flag;
      length = to_int md.length;
      if_free_buffer = false;
      node_id = s.node_id;
    }

-- The message of a normal metadata, none if the remote read fails. Registration and read are checked
-- calls.
unfoldable pub fetch : MetaData → M (Option AMessage)
fetch md = if md.length == 0 then (do m ← create_empty md; pure (some m)) else (do
  m ← create_read md
  test
  test
  wc ← wait_sent
  pure (if succeeded wc then some m else none))

abbrev pub as_ack : MetaData → MetaData
as_ack md = record md { type = metadata_ack }

-- The acknowledgement is posted until it is sent. Each round uses up an event.
unfoldable pub send_ack : ℕ → MetaData → M (Unit {0})
send_ack zero md = stop blocked
send_ack (suc fuel) md = do
  test
  post_send (as_ack md)
  wc ← wait_sent
  (let again = send_ack fuel md in if succeeded wc then pure tt else again)

abbrev pub ack_rounds : Sock → ℕ
ack_rounds s = suc (length s.events)

abbrev pub no_message : ℕ → M (ℕ × Option AMessage)
no_message stat = pure (stat, none)

unfoldable pub acknowledge : Wc → Option AMessage → M (ℕ × Option AMessage)
acknowledge wc none = no_message error_wc
acknowledge wc (some m) = do
  fuel ← gets ack_rounds
  send_ack fuel wc.md_buffer
  post_recv wc.rinfo
  pure (read_solved, some m)

unfoldable pub handle_normal : Wc → M (ℕ × Option AMessage)
handle_normal wc = fetch wc.md_buffer >>= acknowledge wc

unfoldable pub without_region : ℕ → ℕ → List Region → Option (List Region)
without_region mr addr [] = none
without_region mr addr (r ∷ rs) =
    let rest = without_region mr addr rs in
    if (r.mr == mr) && (r.addr == addr)
    then some rs
    else elim rest [ none ↦ none | some rs' ↦ some (r ∷ rs') ]

abbrev pub export_only : Option (List Region) → M (Unit {0})
export_only none s = fault
export_only (some rs) s = done tt (record s { exported = rs })

-- ibv_dereg_mr(mr_addr) and free(msg_addr): a fault if this is no live copy.
unfoldable pub free_copy : ℕ → ℕ → M (Unit {0})
free_copy mr addr s = export_only (without_region mr addr s.exported) s

unfoldable pub free_acked : MetaData → M (Unit {0})
free_acked md = if md.mr_addr == 0 then pure tt else free_copy md.mr_addr md.msg_addr

unfoldable pub handle_ack : Wc → M (ℕ × Option AMessage)
handle_ack wc = do
  modify (λ s. record s { peer_buff_count = s.peer_buff_count +ℤ pos 1 })
  free_acked wc.md_buffer
  modify (λ s. record s { ack_counter = count_up s.ack_counter; acked_count = suc s.acked_count })
  post_recv wc.rinfo
  no_message ack_solved

-- Another type falls off the end of the function.
unfoldable pub dispatch : Wc → M (ℕ × Option AMessage)
dispatch wc =
    if wc.md_buffer.type == metadata_normal
    then handle_normal wc
    else (if wc.md_buffer.type == metadata_ack
        then handle_ack wc
        else (if wc.md_buffer.type == metadata_close
            then (post_recv wc.rinfo >> no_message error_wc)
            else stop fault))

unfoldable pub recv_wc_handle : Wc → M (ℕ × Option AMessage)
recv_wc_handle wc = if wc.status == 0 then dispatch wc else no_message error_wc

-- queue_pop of wr_queue
abbrev pub take_wc : List Wc → M (Option Wc)
take_wc [] s = done none s
take_wc (wc ∷ wcs) s = done (some wc) (record s { wr_queue = wcs })

unfoldable pub pop_wc : M (Option Wc)
pop_wc s = take_wc s.wr_queue s

unfoldable pub push_message : AMessage → M (Unit {0})
push_message m = modify (λ s. record s { recv_queue = s.recv_queue ++ (m ∷ []) })

-- The loop of resolve_wr_queue, with the flag so far.
unfoldable pub resolve_stat : (ℤ → M ℤ) → ℤ → ℕ × Option AMessage → M ℤ
resolve_stat again flag (stat, none) = if stat == error_wc then pure (negsuc 0) else again flag
resolve_stat again flag (stat, some m) = push_message m >> again (pos 0)

unfoldable pub resolve_next : (ℤ → M ℤ) → ℤ → Option Wc → M ℤ
resolve_next again flag none = pure flag
resolve_next again flag (some wc) = recv_wc_handle wc >>= resolve_stat again flag

unfoldable pub resolve_loop : ℕ → ℤ → M ℤ
resolve_loop zero flag = stop blocked
resolve_loop (suc fuel) flag = pop_wc >>= resolve_next (resolve_loop fuel) flag

abbrev pub receives_of : Option (List Wc) → ℕ
receives_of none = 0
receives_of (some wcs) = length (receives wcs)

abbrev pub to_come : List (Option (List Wc)) → ℕ
to_come [] = 0
to_come (e ∷ es) = receives_of e + to_come es

-- Each round takes a completion that waits or that will come.
abbrev pub resolve_rounds : Sock → ℕ
resolve_rounds s = suc (length s.wr_queue + to_come s.events)

unfoldable pub resolve_wr_queue : M ℤ
resolve_wr_queue = do fuel ← gets resolve_rounds; resolve_loop fuel (pos 1)
