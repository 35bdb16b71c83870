-- ===== src/Rsocket/Stable/Resolve.antt =====
-- Facts that hold through resolve_wr_queue of rsocket/src/poll_wc.cpp.
use ffrdma.Rsocket.Stable.{IsStable, Keeps-fetch, Keeps-acknowledge, Keeps-post_recv}
use ffrdma.Rsocket.Keeps.{Keeps-gets, Keeps-blocked}
use ffrdma.Rsocket.Handle.{
  resolve_loop, resolve_stat, resolve_next, resolve_wr_queue, resolve_rounds, pop_wc, push_message,
  error_wc,
}
use ffrdma.Common.{ℤ, ℕ, zero, suc, Option, none, some, pos, negsuc, ◌==◌}
use ffrdma.Mpi.Machine.{AMessage}
use ffrdma.Rsocket.Machine.{metadata_normal, metadata_ack, metadata_close, Wc, Sock, pure, gets}
use ffrdma.Rsocket.Keeps.{
  Keeps-fault, Keeps, Gives-bind, Keeps-pure, Keeps-gets, Keeps-blocked, Gives-if,
}
use ffrdma.Rsocket.Poll.{post_recv}
use ffrdma.Rsocket.Handle.{handle_ack, recv_wc_handle, dispatch, handle_normal, fetch, acknowledge}

module _ {P : Sock → Type 0} (st : IsStable P) where
  -- A receive completion, given that an acknowledgement keeps the fact.
  pub Keeps-handle : ((wc : Wc) → Keeps P (handle_ack wc)) → (wc : Wc) → Keeps P (recv_wc_handle wc)
  unfolding recv_wc_handle dispatch handle_normal
  Keeps-handle ack wc =
      Gives-if (wc.status == 0) _ _
        (λ _.
          Gives-if (wc.md_buffer.type == metadata_normal) _ _
            (λ _.
              Gives-bind (fetch wc.md_buffer) (acknowledge wc) (Keeps-fetch st wc.md_buffer)
                (Keeps-acknowledge st wc))
            λ _.
              Gives-if (wc.md_buffer.type == metadata_ack) _ _ (λ _. ack wc)
                λ _.
                  Gives-if (wc.md_buffer.type == metadata_close) _ _
                    (λ _.
                      Gives-bind (post_recv wc.rinfo) _ (Keeps-post_recv st wc.rinfo)
                        λ _. Keeps-pure _)
                    (λ _. Keeps-fault))
        (λ _. Keeps-pure _)

module _ {P : Sock → Type 0} (st : IsStable P) (ack : (wc : Wc) → Keeps P (handle_ack wc))
    (pop : Keeps P pop_wc) (push : (m : AMessage) → Keeps P (push_message m)) where
  Keeps-resolve_loop : (fuel : ℕ) (flag : ℤ) → Keeps P (resolve_loop fuel flag)
  unfolding resolve_loop
  Keeps-resolve_loop zero flag = Keeps-blocked
  Keeps-resolve_loop (suc fuel) flag = Gives-bind pop_wc _ pop (next (Keeps-resolve_loop fuel))
    where
      stat_keeps :
          ((f : ℤ) → Keeps P (resolve_loop fuel f))
          → (r : ℕ × Option AMessage) → Keeps P (resolve_stat (resolve_loop fuel) flag r)
      stat_keeps ih (stat, none) =
          unfold resolve_stat in
          Gives-if (stat == error_wc) (pure (negsuc 0)) (resolve_loop fuel flag) (λ _. Keeps-pure _)
            (λ _. ih flag)
      stat_keeps ih (stat, some m) =
          unfold resolve_stat in Gives-bind (push_message m) _ (push m) (λ _. ih (pos 0))

      next :
          ((f : ℤ) → Keeps P (resolve_loop fuel f))
          → (w : Option Wc) → Keeps P (resolve_next (resolve_loop fuel) flag w)
      next ih none = unfold resolve_next in Keeps-pure flag
      next ih (some wc) =
          unfold resolve_next in
          Gives-bind (recv_wc_handle wc) _ (Keeps-handle st ack wc) (stat_keeps ih)

  pub Keeps-resolve : Keeps P resolve_wr_queue
  unfolding resolve_wr_queue
  Keeps-resolve =
      Gives-bind (gets resolve_rounds) _ (Keeps-gets resolve_rounds)
        λ fuel. Keeps-resolve_loop fuel (pos 1)
