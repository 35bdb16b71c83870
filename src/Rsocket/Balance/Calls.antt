-- ===== src/Rsocket/Balance/Calls.antt =====
-- send_, irecv_ and recv_ keep the counters of a socket balanced.
use ffrdma.Rsocket.Start.{
  Reaches, at_start, after, Call, call_send, call_irecv, call_recv, run_call,
}
use ffrdma.Common.{subst}
use ffrdma.Common.{
  ℕ, zero, suc, ◌≡◌, refl, Bool, true, false, Option, none, some, List, [], ◌∷◌, ◌++◌, ℤ, pos,
  negsuc, ◌-ℤ◌, if◌then◌else◌, arith, eqb_ℤ, leb_ℤ,
}
use ffrdma.Mpi.Machine.{AMessage, read, Bytes}
use ffrdma.Rsocket.Machine.{MetaData, metadata_normal, Wc, Sock, gets, modify, test, try_close_lock}
use ffrdma.Rsocket.Keeps.{
  Gives-given, Gives-pure, Gives-bind, Gives-if, Gives, Keeps, Ends, Takes-modify, Keeps-pure,
  Keeps-blocked, Keeps-gets, Keeps-fault, Takes,
}
use ffrdma.Rsocket.Poll.{poll_wc, wait_sent, post_send, post_send_wr, dereg_metadata, rounds}
use ffrdma.Rsocket.Stable.{Keeps-test, Keeps-lock, Keeps-poll_wc, Keeps-wait_sent, Keeps-dereg}
use ffrdma.Rsocket.Handle.{resolve_wr_queue, succeeded}
use ffrdma.Rsocket.Balance.{
  IsBalanced, IsBalanced-IsStable, B, resolve-Keeps, normals, normals-append, minus_one,
  count_up-mod,
}
use ffrdma.Rsocket.Transfer.{
  send_, send_open, prepare, export_copy, demand, empty_metadata, await_buffer, announce,
  count_sent, set_close_flag, note_close, drain_ready, drained, pop_message, take_message, irecv_,
  irecv_resolved, irecv_popped, recv_, recv_open, recv_popped, recv_idle, recv_waited, wait_message,
}

module _ (k : ℕ) where
  set_close_flag-Keeps : (flag : ℤ) → Keeps (B k) (set_close_flag flag)
  unfolding set_close_flag
  set_close_flag-Keeps flag = Takes-modify (note_close flag) λ s h. go (eqb_ℤ flag (negsuc 0)) s h
    where
      go : (b : Bool) (s : Sock) → B k s → B k (if b then record s { close_flag = true } else s)
      go true s h = record { window = h.window; acks = h.acks; metas = h.metas; sent = h.sent }
      go false s h = h

  await_buffer-Keeps : Keeps (B k) await_buffer
  unfolding await_buffer
  await_buffer-Keeps =
      Gives-bind (gets (λ s. s.peer_buff_count)) _ (Keeps-gets (λ s. s.peer_buff_count)) λ count.
        Gives-if (leb_ℤ count (pos 0)) _ _
          (λ _. Gives-bind poll_wc _ (Keeps-poll_wc (IsBalanced-IsStable 0 k)) (λ _. Keeps-pure tt))
          (λ _. Keeps-pure tt)

  demand-Keeps : (o : Option Bytes) → Keeps (B k) (demand o)
  demand-Keeps none = Keeps-fault
  demand-Keeps (some b) = Keeps-pure b

  drain_ready-Keeps : Keeps (B k) drain_ready
  unfolding drain_ready
  drain_ready-Keeps = record { at = λ s h. go s.ready s h }
    where
      go : (l : List (List Wc)) (s : Sock) → B k s → Ends (B k) (drained l s)
      go [] s h = h
      go (wcs ∷ rest) s h = record {
        window = h.window;
        acks = h.acks;
        metas = h.metas;
        sent = h.sent;
      }

  pop_message-Keeps : Keeps (B k) pop_message
  unfolding pop_message
  pop_message-Keeps = record { at = λ s h. go s.recv_queue s h }
    where
      go : (l : List AMessage) (s : Sock) → B k s → Ends (B k) (take_message l s)
      go [] s h = h
      go (m ∷ ms) s h = record { window = h.window; acks = h.acks; metas = h.metas; sent = h.sent }

  wait_message-Keeps : (fuel : ℕ) (flag : ℤ) → Keeps (B k) (wait_message fuel flag)
  unfolding wait_message
  wait_message-Keeps zero flag = Keeps-blocked
  wait_message-Keeps (suc fuel) flag =
      Gives-if (eqb_ℤ flag (pos 1)) _ _
        (λ _. Gives-bind poll_wc _ (Keeps-poll_wc (IsBalanced-IsStable 0 k)) λ (polled, wc).
          Gives-if (eqb_ℤ polled (negsuc 0)) _ _ (λ _. Keeps-pure none)
            λ _. Gives-bind resolve_wr_queue _ (resolve-Keeps k) (wait_message-Keeps fuel))
        (λ _. Keeps-pure (some flag))

  recv_waited-Keeps : (o : Option ℤ) → Keeps (B k) (recv_waited o)
  unfolding recv_waited
  recv_waited-Keeps none = Keeps-pure none
  recv_waited-Keeps (some flag) =
      Gives-bind (set_close_flag flag) _ (set_close_flag-Keeps flag) (λ _. pop_message-Keeps)

  recv_idle-Keeps : (flag : ℤ) → Keeps (B k) (recv_idle flag)
  unfolding recv_idle
  recv_idle-Keeps flag =
      Gives-bind try_close_lock _ (Keeps-lock (IsBalanced-IsStable 0 k)) λ closing.
        Gives-bind (gets (λ s. s.close_flag)) _ (Keeps-gets (λ s. s.close_flag)) λ closed.
          Gives-bind (gets rounds) _ (Keeps-gets rounds) λ fuel.
            Gives-if closing _ _ (λ _. Keeps-pure none)
              λ _.
                Gives-if closed _ _
                  (λ _.
                    Gives-bind (modify _) _
                      (Takes-modify (λ s. record s { self_locked = true })
                        λ s h. record {
                          window = h.window;
                          acks = h.acks;
                          metas = h.metas;
                          sent = h.sent;
                        })
                      (λ _. Keeps-pure none))
                  (λ _.
                    Gives-bind (wait_message fuel flag) _ (wait_message-Keeps fuel flag)
                      recv_waited-Keeps)

  recv_popped-Keeps : (flag : ℤ) (m : Option AMessage) → Keeps (B k) (recv_popped flag m)
  unfolding recv_popped
  recv_popped-Keeps flag none = recv_idle-Keeps flag
  recv_popped-Keeps flag (some m) = Keeps-pure (some m)

  recv-Keeps : Keeps (B k) recv_
  unfolding recv_ recv_open
  recv-Keeps = Gives-bind try_close_lock _ (Keeps-lock (IsBalanced-IsStable 0 k)) λ closing.
      Gives-if closing _ _ (λ _. Keeps-pure none)
        λ _. Gives-bind drain_ready _ drain_ready-Keeps λ _.
          Gives-bind resolve_wr_queue _ (resolve-Keeps k) λ flag.
            Gives-bind (set_close_flag flag) _ (set_close_flag-Keeps flag)
              λ _. Gives-bind pop_message _ pop_message-Keeps (recv_popped-Keeps flag)

  irecv_popped-Keeps : (m : Option AMessage) → Keeps (B k) (irecv_popped m)
  unfolding irecv_popped
  irecv_popped-Keeps none =
      Gives-bind try_close_lock _ (Keeps-lock (IsBalanced-IsStable 0 k)) (λ _. Keeps-pure none)
  irecv_popped-Keeps (some m) = Keeps-pure (some m)

  irecv-Keeps : Keeps (B k) irecv_
  unfolding irecv_ irecv_resolved
  irecv-Keeps = Gives-bind try_close_lock _ (Keeps-lock (IsBalanced-IsStable 0 k)) λ closing.
      Gives-if closing _ _ (λ _. Keeps-pure none)
        λ _. Gives-bind drain_ready _ drain_ready-Keeps λ _.
          Gives-bind resolve_wr_queue _ (resolve-Keeps k) λ flag.
            Gives-if (eqb_ℤ flag (negsuc 0)) _ _
              (λ _.
                Gives-bind (set_close_flag flag) _ (set_close_flag-Keeps flag)
                  (λ _. Keeps-pure none))
              (λ _. Gives-bind pop_message _ pop_message-Keeps irecv_popped-Keeps)

-- Metadata that announces a message.
abbrev IsNormal : MetaData → Type 0
IsNormal md = md.type ≡ metadata_normal

announce-Takes : (md : MetaData) → IsNormal md → Takes (B 0) (B 1) (announce md)
unfolding announce post_send_wr post_send
announce-Takes md normal =
    Gives-bind (post_send_wr md) _
      (Gives-bind test _ ((Keeps-test (IsBalanced-IsStable 0 0))) λ _.
        Gives-bind (modify _) _
          (Takes-modify {P = B 0} {Q = B 0} (λ s. record s { mrs = suc s.mrs })
            (λ s h. record { window = h.window; acks = h.acks; metas = h.metas; sent = h.sent }))
          λ _.
            Takes-modify {P = B 0} {Q = Announced} (λ s. record s { out = s.out ++ (md ∷ []) })
              λ s h.
                let one : normals (md ∷ []) ≡ 1 = rw normal refl in
                record {
                  window = omega (arith, h.window, one, normals-append s.out (md ∷ []));
                  acks = h.acks;
                  metas = h.metas;
                  sent = omega (arith, h.sent, one, normals-append s.out (md ∷ []));
                })
      λ _.
        Takes-modify {P = Announced} {Q = B 1}
          (λ s. record s { peer_buff_count = s.peer_buff_count -ℤ pos 1 })
          (λ s h. record {
            window = omega (arith, h.window, minus_one s.peer_buff_count);
            acks = h.acks;
            metas = h.metas;
            sent = h.sent;
          })
  where
    Announced : Sock → Type 0
    Announced = IsBalanced 1 1

prepare-Gives : (msg : AMessage) → Gives (B 0) (λ md s. IsNormal md × B 0 s) (prepare msg)
unfolding prepare
prepare-Gives msg =
    Gives-if (eqb_ℤ msg.length (pos 0)) _ _
      (λ _. Gives-pure (empty_metadata msg) (λ s h. (refl, h)))
      λ _.
        Gives-bind (demand (read msg.buffer msg.length)) _
          (((demand-Keeps 0 (read msg.buffer msg.length))))
          λ bytes. Gives-bind test _ (((Keeps-test (IsBalanced-IsStable 0 0)))) λ _.
            unfold export_copy in
            record {
              at = λ s h. (
                refl,
                record { window = h.window; acks = h.acks; metas = h.metas; sent = h.sent },
              );
            }

count_sent-Takes : Takes (B 1) (B 0) count_sent
unfolding count_sent
count_sent-Takes = Gives-bind dereg_metadata _ ((Keeps-dereg (IsBalanced-IsStable 0 1))) λ _.
    Gives-bind (modify _) _
      (Takes-modify {P = B 1} {Q = B 0} _ (λ s h. record {
        window = h.window;
        acks = h.acks;
        metas = count_up-mod s.metadata_counter s.sent_count h.metas;
        sent = omega (arith, h.sent);
      }))
      λ _.
        (Gives-bind resolve_wr_queue _ (resolve-Keeps 0) λ flag.
          Gives-bind (set_close_flag flag) _ (set_close_flag-Keeps 0 flag) (λ _. Keeps-pure _))

fewer : (s : Sock) → B 1 s → B 0 s
fewer s h = record {
  window = h.window;
  acks = h.acks;
  metas = h.metas;
  sent = omega (arith, h.sent);
}

send_open-Takes : (msg : AMessage) → Takes (B 0) (B 0) (send_open msg)
unfolding send_open
send_open-Takes msg =
    (Gives-bind (prepare msg) _ (prepare-Gives msg) λ md. Gives-given λ normal.
      (Gives-bind await_buffer _ ((await_buffer-Keeps 0)) λ _.
        Gives-bind (announce md) _ (announce-Takes md normal) λ _.
          Gives-bind wait_sent _ ((Keeps-wait_sent (IsBalanced-IsStable 0 1)))
            λ wc. Gives-if (succeeded wc) _ _ (λ _. count_sent-Takes) (λ _. Gives-pure _ fewer)))

send-Keeps : (msg : AMessage) → Keeps (B 0) (send_ msg)
unfolding send_
send-Keeps msg =
    Gives-bind try_close_lock _ (Keeps-lock (IsBalanced-IsStable 0 0))
      λ closing. Gives-if closing _ _ (λ _. Keeps-pure _) (λ _. (send_open-Takes msg))

call-Keeps : (c : Call) → Keeps (B 0) (run_call c)
unfolding run_call
call-Keeps (call_send msg) = Gives-bind (send_ msg) _ (send-Keeps msg) (λ _. Keeps-pure none)
call-Keeps call_irecv = irecv-Keeps 0
call-Keeps call_recv = recv-Keeps 0

pub Reaches-balanced : (s s' : Sock) (taken : List AMessage) → B 0 s → Reaches s taken s' → B 0 s'
Reaches-balanced s _ _ h at_start = h
Reaches-balanced s _ _ h (after taken s' s'' c o r e) =
    subst (Ends (B 0)) e ((call-Keeps c).at s' (Reaches-balanced s s' taken h r))
