-- ===== src/Rsocket/Order/Send.antt =====
-- send_ of rsocket/src/rdma_socket.cpp keep the order of the messages.
use ffrdma.Rsocket.Order.Receive.{Now, now, set_close_flag-Gives}
use ffrdma.Rsocket.Keeps.{
  Keeps, Gives-bind, Takes-modify, Keeps-pure, Gives-if, Keeps-gets, Keeps-fault, Gives, Gives-pure,
}
use ffrdma.Rsocket.Poll.{poll_wc, wait_sent, post_send, post_send_wr, dereg_metadata}
use ffrdma.Rsocket.Stable.{
  IsStable, Keeps-test, Keeps-lock, Keeps-poll_wc, Keeps-wait_sent, Keeps-dereg,
}
use ffrdma.Rsocket.Handle.{resolve_wr_queue, succeeded}
use ffrdma.Rsocket.Transfer.{
  send_, send_open, prepare, export_copy, demand, empty_metadata, await_buffer, announce,
  count_sent, set_close_flag,
}
use ffrdma.Rsocket.Machine.{try_close_lock}
use ffrdma.Common.{
  Sublist, leb_ℤ, ℕ, ◌≡◌, refl, sym, ap, subst, ◌∙◌, Option, none, some, List, ◌++◌, map, pos,
  negsuc, eqb_ℤ,
}
use ffrdma.Mpi.Machine.{AMessage, Bytes, read}
use ffrdma.Rsocket.Machine.{MetaData, Sock, gets, modify, test}
use ffrdma.Rsocket.Order.{IsStable, content, announced}
use ffrdma.Rsocket.Order.Resolve.{resolve-Gives}

module _ (remote : ℕ → ℕ → Bytes) (taken : List AMessage) where
  abbrev Here : Sock → Type 0
  Here = Now remote taken

  here : IsStable Here
  here = now remote taken

  -- Changes that send_ makes to other fields.
  other :
      (s s' : Sock)
      → s'.remote ≡ s.remote
      → s'.wr_queue ≡ s.wr_queue
      → s'.arrived ≡ s.arrived
      → s'.recv_queue ≡ s.recv_queue
      → s'.close_flag ≡ s.close_flag
      → Here s
      → Here s'
  other s s' r w a q c h = record {
    memory = r ∙ h.memory;
    seen = h.seen;
    split = ap (λ l. h.seen ++ announced remote l) w ∙ h.split ∙ ap (announced remote) (sym a);
    part = subst (λ l. Sublist (map content (taken ++ l)) h.seen) (sym q) h.part;
    whole = λ l e. ap (λ x. map content (taken ++ x)) q ∙ h.whole l (sym c ∙ e);
  }

  aside :
      (f : Sock → Sock)
      → ((s : Sock)
          → ((f s).remote ≡ s.remote)
            × ((f s).wr_queue ≡ s.wr_queue)
            × ((f s).arrived ≡ s.arrived)
            × ((f s).recv_queue ≡ s.recv_queue)
            × ((f s).close_flag ≡ s.close_flag))
      → Keeps Here (modify f)
  aside f e = Takes-modify f (λ s h. let (r, w, a, q, c) = e s in other s (f s) r w a q c h)

  demand-Keeps : (o : Option Bytes) → Keeps Here (demand o)
  demand-Keeps none = Keeps-fault
  demand-Keeps (some b) = Keeps-pure b

  export_copy-Keeps : (msg : AMessage) (bytes : Bytes) → Keeps Here (export_copy msg bytes)
  unfolding export_copy
  export_copy-Keeps msg bytes = record { at = λ s h. other s _ refl refl refl refl refl h }

  prepare-Keeps : (msg : AMessage) → Keeps Here (prepare msg)
  unfolding prepare
  prepare-Keeps msg =
      Gives-if (eqb_ℤ msg.length (pos 0)) _ _ (λ _. Keeps-pure (empty_metadata msg))
        λ _.
          Gives-bind (demand (read msg.buffer msg.length)) _
            (demand-Keeps (read msg.buffer msg.length))
            λ bytes. Gives-bind test _ (Keeps-test here) λ _. export_copy-Keeps msg bytes

  announce-Keeps : (md : MetaData) → Keeps Here (announce md)
  unfolding announce post_send_wr post_send
  announce-Keeps md =
      Gives-bind (post_send_wr md) _
        (Gives-bind test _ (Keeps-test here) λ _.
          Gives-bind (modify _) _ (aside _ (λ s. (refl, refl, refl, refl, refl)))
            λ _. aside _ (λ s. (refl, refl, refl, refl, refl)))
        (λ _. aside _ (λ s. (refl, refl, refl, refl, refl)))

  await_buffer-Keeps : Keeps Here await_buffer
  unfolding await_buffer
  await_buffer-Keeps =
      Gives-bind (gets (λ s. s.peer_buff_count)) _ (Keeps-gets (λ s. s.peer_buff_count)) λ count.
        Gives-if (leb_ℤ count (pos 0)) _ _
          (λ _. Gives-bind poll_wc _ (Keeps-poll_wc here) (λ _. Keeps-pure tt)) (λ _. Keeps-pure tt)

  count_sent-Gives : Gives Here (λ _. Here) count_sent
  unfolding count_sent
  count_sent-Gives = Gives-bind dereg_metadata _ ((Keeps-dereg here)) λ _.
      Gives-bind (modify _) _ ((aside _ (λ s. (refl, refl, refl, refl, refl)))) λ _.
        Gives-bind resolve_wr_queue _ (resolve-Gives remote taken) λ flag.
          Gives-bind (set_close_flag flag) _ (set_close_flag-Gives remote taken flag)
            λ _. Gives-pure (pos 0) (λ s h. h)

  pub send-Gives : (msg : AMessage) → Gives Here (λ _. Here) (send_ msg)
  unfolding send_ send_open
  send-Gives msg = Gives-bind try_close_lock _ ((Keeps-lock here)) λ closing.
      Gives-if closing _ _ (λ _. Gives-pure (negsuc 0) (λ s h. h))
        λ _. Gives-bind (prepare msg) _ ((prepare-Keeps msg)) λ md.
          Gives-bind await_buffer _ (await_buffer-Keeps) λ _.
            Gives-bind (announce md) _ ((announce-Keeps md)) λ _.
              Gives-bind wait_sent _ ((Keeps-wait_sent here)) λ wc.
                Gives-if (succeeded wc) _ _ (λ _. count_sent-Gives)
                  (λ _. Gives-pure (negsuc 0) (λ s h. h))
