-- ===== src/Rsocket/Order/Receive.antt =====
-- irecv_ and recv_ of rsocket/src/rdma_socket.cpp keep the order of the messages.
use ffrdma.Rsocket.Keeps.{
  Keeps, Ends, Takes-modify, Keeps-gets, Gives, Finishes, Gives-bind, Gives-pure, Gives-stop,
  Gives-if, Gives-weaken,
}
use ffrdma.Rsocket.Poll.{poll_wc, rounds}
use ffrdma.Rsocket.Stable.{IsStable, Keeps-lock, Keeps-poll_wc}
use ffrdma.Rsocket.Handle.{resolve_wr_queue}
use ffrdma.Rsocket.Transfer.{
  set_close_flag, drain_ready, drained, kept, pop_message, take_message, irecv_, irecv_resolved,
  irecv_popped, recv_, recv_open, recv_popped, recv_idle, recv_waited, wait_message,
}
use ffrdma.Rsocket.Machine.{try_close_lock, blocked, Wc}
use ffrdma.Common.{
  Sublist, arith, ℕ, zero, suc, ◌≡◌, refl, sym, ap, subst, ◌∙◌, Bool, true, false, Option, none,
  some, List, [], ◌∷◌, ◌++◌, map, append-nil, append_assoc, ℤ, pos, negsuc, if◌then◌else◌, eqb_ℤ,
}
use ffrdma.Mpi.Machine.{AMessage, Bytes}
use ffrdma.Rsocket.Machine.{Wc, Sock, gets, modify, ◌>>=◌}
use ffrdma.Rsocket.Order.{arrived_grows, IsStable, content, IsOrdered-IsStable}
use ffrdma.Rsocket.Order.Resolve.{Holds, Resolved, resolve-Gives}
use ffrdma.Rsocket.Start.{list_of}

module _ (remote : ℕ → ℕ → Bytes) (taken : List AMessage) where
  abbrev pub Now : Sock → Type 0
  Now = Holds remote taken [] false

  pub now : IsStable Now
  now = IsOrdered-IsStable remote taken [] false

  -- A message handed out joins those taken.
  abbrev pub Given : Option AMessage → Sock → Type 0
  Given o = Holds remote (taken ++ list_of o) [] false

  pub same : (s : Sock) → Now s → Given none s
  same s h = subst (λ l. Holds remote l [] false s) (sym (append-nil taken)) h

  pub set_close_flag-Gives :
      (flag : ℤ) → Gives (Resolved remote taken flag) (λ _. Now) (set_close_flag flag)
  unfolding set_close_flag modify
  set_close_flag-Gives flag = record { at = λ s h. go (eqb_ℤ flag (negsuc 0)) s h }
    where
      go :
          (b : Bool) (s : Sock)
          → Holds remote taken [] b s
          → Now (if b then record s { close_flag = true } else s)
      go true s h = record {
        memory = h.memory;
        seen = h.seen;
        split = h.split;
        part = h.part;
        whole = λ _ c. cc c;
      }
      go false s h = h

  drain_ready-Keeps : Keeps Now drain_ready
  unfolding drain_ready
  drain_ready-Keeps = record { at = λ s h. go s.ready s h }
    where
      go : (l : List (List Wc)) (s : Sock) → Now s → Ends Now (drained l s)
      go [] s h = h
      go (wcs ∷ rest) s h = record {
        memory = h.memory;
        seen = h.seen;
        split = arrived_grows remote s h.seen [] h.split (kept wcs);
        part = h.part;
        whole = h.whole;
      }

  pop_message-Gives : Gives Now Given pop_message
  unfolding pop_message
  pop_message-Gives = record { at = λ s h. go s.recv_queue s refl h }
    where
      go :
          (q : List AMessage) (s : Sock)
          → s.recv_queue ≡ q
          → Now s
          → Finishes Given (take_message q s)
      go [] s e h = same s h
      go (m ∷ ms) s e h =
          let moved : map content ((taken ++ (m ∷ [])) ++ ms)
              ≡ map content (taken ++ s.recv_queue) =
            ap (map content) (append_assoc taken (m ∷ []) ms ∙ ap (λ q. taken ++ q) (sym e)) in
          record {
            memory = h.memory;
            seen = h.seen;
            split = h.split;
            part = subst (λ l. Sublist l h.seen) (sym moved) h.part;
            whole = λ l c. moved ∙ h.whole l c;
          }

  waiting :
      (flag : ℤ) → eqb_ℤ flag (pos 1) ≡ true → (s : Sock) → Resolved remote taken flag s → Now s
  waiting flag e s h = subst (λ b. Holds remote taken [] b s) (not_closed flag e) h
    where
      not_closed : (f : ℤ) → eqb_ℤ f (pos 1) ≡ true → eqb_ℤ f (negsuc 0) ≡ false
      not_closed f = ground arith

  abbrev Waited : Option ℤ → Sock → Type 0
  Waited none = Now
  Waited (some flag) = Resolved remote taken flag

  wait_message-Gives :
      (fuel : ℕ) (flag : ℤ) → Gives (Resolved remote taken flag) Waited (wait_message fuel flag)
  unfolding wait_message
  wait_message-Gives zero flag = Gives-stop blocked tt
  wait_message-Gives (suc fuel) flag =
      Gives-if (eqb_ℤ flag (pos 1)) _ _
        (λ e. Gives-weaken (waiting flag e) (
          Gives-bind poll_wc _ ((Keeps-poll_wc now)) λ (polled, wc).
            Gives-if (eqb_ℤ polled (negsuc 0)) _ _ (λ _. Gives-pure none (λ s h. h))
              λ _.
                Gives-bind resolve_wr_queue _ (resolve-Gives remote taken)
                  (wait_message-Gives fuel)))
        (λ _. Gives-pure (some flag) (λ s h. h))

  recv_waited-Gives : (o : Option ℤ) → Gives (Waited o) Given (recv_waited o)
  unfolding recv_waited
  recv_waited-Gives none = Gives-pure none same
  recv_waited-Gives (some flag) =
      Gives-bind (set_close_flag flag) _ (set_close_flag-Gives flag) (λ _. pop_message-Gives)

  lock_kept : (s : Sock) → Now s → Now (record s { self_locked = true })
  lock_kept s h = record {
    memory = h.memory;
    seen = h.seen;
    split = h.split;
    part = h.part;
    whole = h.whole;
  }

  any_lossy : (b : Bool) (s : Sock) → Now s → Holds remote taken [] b s
  any_lossy b s h = record {
    memory = h.memory;
    seen = h.seen;
    split = h.split;
    part = h.part;
    whole = λ _ c. h.whole refl c;
  }

  -- recv_ waits with the flag of a resolve_wr_queue before it; a flag of -1 has set close_flag.
  wait_idle-Gives : (fuel : ℕ) (flag : ℤ) → Gives Now Given (wait_message fuel flag >>= recv_waited)
  wait_idle-Gives fuel flag =
      Gives-weaken (any_lossy (eqb_ℤ flag (negsuc 0)))
        (Gives-bind (wait_message fuel flag) _ (wait_message-Gives fuel flag) recv_waited-Gives)

  recv_idle-Gives : (flag : ℤ) → Gives Now Given (recv_idle flag)
  unfolding recv_idle
  recv_idle-Gives flag = Gives-bind try_close_lock _ ((Keeps-lock now)) λ closing.
      Gives-bind (gets (λ s. s.close_flag)) _ ((Keeps-gets (λ s. s.close_flag))) λ closed.
        Gives-bind (gets rounds) _ ((Keeps-gets rounds)) λ fuel.
          Gives-if closing _ _ (λ _. Gives-pure none same)
            λ _.
              Gives-if closed _ _
                (λ _.
                  Gives-bind (modify _) _ ((Takes-modify _ lock_kept)) (λ _. Gives-pure none same))
                (λ _. wait_idle-Gives fuel flag)

  recv_popped-Gives : (flag : ℤ) (o : Option AMessage) → Gives (Given o) Given (recv_popped flag o)
  unfolding recv_popped
  recv_popped-Gives flag none =
      Gives-weaken (λ s h. subst (λ l. Holds remote l [] false s) (append-nil taken) h)
        (recv_idle-Gives flag)
  recv_popped-Gives flag (some m) = Gives-pure (some m) (λ s h. h)

  pub recv-Gives : Gives Now Given recv_
  unfolding recv_ recv_open
  recv-Gives = Gives-bind try_close_lock _ ((Keeps-lock now)) λ closing.
      Gives-if closing _ _ (λ _. Gives-pure none same)
        λ _. Gives-bind drain_ready _ (drain_ready-Keeps) λ _.
          Gives-bind resolve_wr_queue _ (resolve-Gives remote taken) λ flag.
            Gives-bind (set_close_flag flag) _ (set_close_flag-Gives flag)
              λ _. Gives-bind pop_message _ pop_message-Gives (recv_popped-Gives flag)

  irecv_popped-Gives : (o : Option AMessage) → Gives (Given o) Given (irecv_popped o)
  unfolding irecv_popped
  irecv_popped-Gives none =
      Gives-weaken (λ s h. subst (λ l. Holds remote l [] false s) (append-nil taken) h)
        (Gives-bind try_close_lock _ ((Keeps-lock now)) (λ _. Gives-pure none same))
  irecv_popped-Gives (some m) = Gives-pure (some m) (λ s h. h)

  pub irecv-Gives : Gives Now Given irecv_
  unfolding irecv_ irecv_resolved
  irecv-Gives = Gives-bind try_close_lock _ ((Keeps-lock now)) λ closing.
      Gives-if closing _ _ (λ _. Gives-pure none same)
        λ _. Gives-bind drain_ready _ (drain_ready-Keeps) λ _.
          Gives-bind resolve_wr_queue _ (resolve-Gives remote taken) λ flag.
            Gives-if (eqb_ℤ flag (negsuc 0)) _ _
              (λ _.
                Gives-bind (set_close_flag flag) _ (set_close_flag-Gives flag)
                  (λ _. Gives-pure none same))
              (λ e.
                Gives-weaken (λ s h. subst (λ b. Holds remote taken [] b s) e h)
                  (Gives-bind pop_message _ pop_message-Gives irecv_popped-Gives))
