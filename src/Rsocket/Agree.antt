-- ===== src/Rsocket/Agree.antt =====
-- recv_ and irecv_ of rsocket/src/rdma_socket.cpp agree where there is a message.
use ffrdma.Common.{◌≡◌, Bool, true, false, Option, none, some, ℤ, negsuc, eqb_ℤ, if◌then◌else◌}
use ffrdma.Mpi.Machine.{AMessage}
use ffrdma.Rsocket.Machine.{
  Sock, Out, done, died, fault, blocked, M, pure, and_then, ◌>>=◌, try_close_lock, modify,
}
use ffrdma.Rsocket.Handle.{resolve_wr_queue}
use ffrdma.Rsocket.Transfer.{
  recv_, recv_open, recv_popped, irecv_, irecv_resolved, irecv_popped, drain_ready, pop_message,
  set_close_flag,
}

-- Where one continuation ends in r, so does another that does what the first does.
follows :
    {A B : Type 0} (r : Out B) (o : Out A) (k k' : A → M B)
    → ((a : A) (s : Sock) → k a s ≡ r → k' a s ≡ r)
    → and_then o k ≡ r
    → and_then o k' ≡ r
follows r (done a s) k k' h e = h a s e
follows r died k k' h e = e
follows r fault k k' h e = e
follows r blocked k k' h e = e

module _ (m : AMessage) (t : Sock) where
  nothing_found : {A : Type 0} (o : Out A) → and_then o (λ _. pure none) ≡ done (some m) t → ⊥
  unfolding pure
  nothing_found (done a s) e = cc e
  nothing_found died e = cc e
  nothing_found fault e = cc e
  nothing_found blocked e = cc e

  popped_too :
      (flag : ℤ) (o : Option AMessage) (s : Sock)
      → irecv_popped o s ≡ done (some m) t
      → recv_popped flag o s ≡ done (some m) t
  unfolding irecv_popped recv_popped ◌>>=◌
  popped_too flag none s e = absurd (nothing_found (try_close_lock s) e)
  popped_too flag (some x) s e = e

  resolved_too :
      (flag : ℤ) (s : Sock)
      → irecv_resolved flag s ≡ done (some m) t
      → (set_close_flag flag >>= λ _. pop_message >>= recv_popped flag) s ≡ done (some m) t
  unfolding irecv_resolved set_close_flag modify ◌>>=◌ pure
  resolved_too flag s e = go (eqb_ℤ flag (negsuc 0)) e
    where
      go :
          (b : Bool)
          → (if b then (set_close_flag flag >>= λ _. pure none) else (pop_message >>= irecv_popped))
              s
            ≡ done (some m) t
          → (pop_message >>= recv_popped flag) (if b then record s { close_flag = true } else s)
            ≡ done (some m) t
      go true h = cc h
      go false h =
          follows (done (some m) t) (pop_message s) irecv_popped (recv_popped flag)
            (popped_too flag) h

  open_too :
      (closing : Bool) (s : Sock)
      → (if closing then pure none else (drain_ready >>= λ _. resolve_wr_queue >>= irecv_resolved))
          s
        ≡ done (some m) t
      → (if closing then pure none else recv_open) s ≡ done (some m) t
  unfolding recv_open ◌>>=◌
  open_too true s e = e
  open_too false s e =
      follows (done (some m) t) (drain_ready s) _ _
        (λ _ s'. follows (done (some m) t) (resolve_wr_queue s') _ _ resolved_too) e

-- Where irecv_ returns a message, recv_ in the same state returns the same message and leaves the
-- same state.
pub recv-irecv :
    (s t : Sock) (m : AMessage) → irecv_ s ≡ done (some m) t → recv_ s ≡ done (some m) t
unfolding recv_ irecv_ ◌>>=◌
recv-irecv s t m e = follows (done (some m) t) (try_close_lock s) _ _ (open_too m t) e
