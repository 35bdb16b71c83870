-- ===== src/Rsocket/Close.antt =====
-- Closing a socket: send_close_md of rsocket/src/rdma_socket.cpp, and the lock that recv_ keeps.
use ffrdma.Rsocket.Closing.{
  latest, await_acks, close_metadata, poll_while_receiving, status_ok, post_close, send_close_md,
}
use ffrdma.Common.{
  subst, ℕ, zero, suc, ◌≤◌, ◌≡◌, refl, Bool, true, false, Option, none, some, List, [], ◌∷◌, ◌++◌,
  pos, negsuc, arith, if◌then◌else◌, eqb_ℤ, ltb,
}
use ffrdma.Rsocket.Machine.{
  and_then, Wc, MetaData, Sock, done, fault, blocked, pure, ◌>>=◌, stop, gets, modify, test,
  try_close_lock, tried,
}
use ffrdma.Rsocket.Keeps.{
  Ends, Keeps-gets, Gives-nothing, Keeps, Gives, Finishes, Gives-bind, Gives-pure, Gives-stop,
  Gives-if, Gives-weaken, Takes-modify,
}
use ffrdma.Rsocket.Poll.{
  poll_wc, get_cq_event, drain_event, post_send_wr, post_send, dereg_metadata, rounds,
}
use ffrdma.Rsocket.Handle.{resolve_wr_queue}
use ffrdma.Rsocket.Stable.{IsStable, Keeps-test, Keeps-lock}

-- Every message sent has been acknowledged, by the counters; the lock is this thread's, or not.
record IsSettled (locked : Bool) (s : Sock) : Type 0 where
  settled : locked ≡ true → s.self_locked ≡ true
  acked : s.metadata_counter ≤ s.ack_counter

-- In addition the close metadata is the last that went out.
pub record IsClosing (locked : Bool) (s : Sock) : Type 0 where
  pub holds : locked ≡ true → s.self_locked ≡ true
  pub acked : s.metadata_counter ≤ s.ack_counter
  pub before : List MetaData
  pub last : s.out ≡ before ++ (close_metadata ∷ [])

IsSettled-IsStable : (l : Bool) → IsStable (IsSettled l)
IsSettled-IsStable l = record {
  checks = λ s l h. record { settled = h.settled; acked = h.acked };
  locks = λ s held rest e h. record { settled = h.settled; acked = h.acked };
  next = λ s n h. record { settled = h.settled; acked = h.acked };
  mrs = λ s n h. record { settled = h.settled; acked = h.acked };
  posted = λ s l h. record { settled = h.settled; acked = h.acked };
  ack_posted = λ s md h. record { settled = h.settled; acked = h.acked };
  event = λ s e rest eq h. record { settled = h.settled; acked = h.acked };
  failed_event = λ s rest eq h. record { settled = h.settled; acked = h.acked };
}

Settles : Bool × Option Wc → Sock → Type 0
Settles (acked, wc) s = acked ≡ true → IsSettled false s

await_acks-Gives :
    {P : Sock → Type 0} (fuel : ℕ) (wc : Option Wc) → Gives P Settles (await_acks fuel wc)
unfolding await_acks Settles gets
await_acks-Gives zero wc = Gives-stop blocked tt
await_acks-Gives {P} (suc fuel) wc =
    Gives-bind (gets (λ s. ltb s.ack_counter s.metadata_counter)) _ read λ missing.
      Gives-if missing _ _
        (λ _. Gives-bind poll_wc _ (Gives-nothing poll_wc) λ (polled, new).
          Gives-if (eqb_ℤ polled (negsuc 0)) _ _ (λ _. Gives-pure (false, wc) (λ s h e. cc e))
            λ _.
              Gives-bind resolve_wr_queue _ (Gives-nothing resolve_wr_queue)
                λ _. await_acks-Gives fuel (latest wc new))
        (λ e.
          Gives-pure (true, wc)
            (λ s h _. record { settled = λ t. cc t; acked = enough missing s e h }))
  where
    read :
        Gives P
          (λ b s. b ≡ ltb s.ack_counter s.metadata_counter)
          (gets (λ s. ltb s.ack_counter s.metadata_counter))
    read = record { at = λ s h. refl }

    enough :
        (b : Bool) (s : Sock)
        → b ≡ false
        → b ≡ ltb s.ack_counter s.metadata_counter
        → s.metadata_counter ≤ s.ack_counter
    enough b s e h = ground arith

-- With the lock in hand the loop on poll_wc does nothing.
poll_while_receiving-Keeps :
    (fuel : ℕ) (wc : Option Wc) → Keeps (IsClosing true) (poll_while_receiving fuel wc)
unfolding poll_while_receiving poll_wc try_close_lock pure ◌>>=◌ stop
poll_while_receiving-Keeps zero wc = record { at = λ s h. tt }
poll_while_receiving-Keeps (suc fuel) wc = record {
  at = λ s h. go s.self_locked s (h.holds refl) h;
}
  where
    go :
        (b : Bool) (s : Sock)
        → b ≡ true
        → IsClosing true s
        → Ends (IsClosing true) (
            and_then
              (and_then (if b then done true s else tried s.locks s) (λ closing.
                if closing then pure (negsuc 0, none) else (get_cq_event >>= drain_event)))
              (λ (flag, new).
                if eqb_ℤ flag (pos 1)
                then poll_while_receiving fuel (latest wc new)
                else pure (latest wc new)))
    go true s e h = h
    go false s e h = cc e

post_close-Gives :
    (wc : Option Wc) → Gives (IsSettled false) (λ b s. b ≡ true → IsClosing false s) (post_close wc)
unfolding post_close post_send_wr post_send dereg_metadata
post_close-Gives wc =
    Gives-bind try_close_lock _ ((Keeps-lock (IsSettled-IsStable false))) λ closing.
      Gives-bind (gets rounds) _ ((Keeps-gets rounds)) λ fuel.
        Gives-if closing _ _ (λ _. Gives-pure false (λ s h e. cc e))
          λ _.
            Gives-bind (modify _) _
              (step {P = IsSettled false} {Q = IsSettled true} _
                (λ s h. record { settled = λ _. refl; acked = h.acked }))
              λ _.
                Gives-bind (post_send_wr close_metadata) _
                  (Gives-bind test _ ((Keeps-test (IsSettled-IsStable true))) λ _.
                    Gives-bind (modify _) _
                      (step {P = IsSettled true} {Q = IsSettled true} _
                        (λ s h. record { settled = h.settled; acked = h.acked }))
                      λ _. step {P = IsSettled true} {Q = IsClosing true} _ (λ s h. record {
                        holds = h.settled;
                        acked = h.acked;
                        before = s.out;
                        last = refl;
                      }))
                  λ _.
                    Gives-bind (poll_while_receiving fuel wc) _
                      ((poll_while_receiving-Keeps fuel wc))
                      λ wc'.
                        Gives-bind dereg_metadata _
                          (step {P = IsClosing true} {Q = IsClosing true} _ (λ s h. record {
                            holds = h.holds;
                            acked = h.acked;
                            before = h.before;
                            last = h.last;
                          }))
                          λ _.
                            Gives-bind (modify _) _
                              (step {P = IsClosing true} {Q = IsClosing false} _ (λ s h. record {
                                holds = λ e. cc e;
                                acked = h.acked;
                                before = h.before;
                                last = h.last;
                              }))
                              λ _. status wc'
  where
    step :
        {P Q : Sock → Type 0} (f : Sock → Sock)
        → ((s : Sock) → P s → Q (f s))
        → Gives P (λ _. Q) (modify f)
    step f h = (Takes-modify f h)

    status :
        (w : Option Wc)
        → Gives (IsClosing false) (λ b s. b ≡ true → IsClosing false s) (status_ok w)
    status none = Gives-stop fault tt
    status (some w) = Gives-pure _ (λ s h _. h)

-- Where send_close_md reports success, the close metadata was the last to go out and, by the
-- counters, every message sent had been acknowledged.
pub send_close_md-IsClosing : (s s' : Sock) → send_close_md s ≡ done true s' → IsClosing false s'
unfolding send_close_md Settles
send_close_md-IsClosing s s' e =
    subst (Finishes (λ b s. b ≡ true → IsClosing false s)) e (closing.at s tt) refl
  where
    closing : Gives (λ _. Unit {0}) (λ b s. b ≡ true → IsClosing false s) send_close_md
    closing = Gives-bind try_close_lock _ (Gives-nothing try_close_lock) λ closing.
        Gives-bind (gets rounds) _ (Gives-nothing (gets rounds)) λ fuel.
          Gives-if closing _ _ (λ _. Gives-pure false (λ s h e. cc e))
            λ _. Gives-bind (await_acks fuel none) _ (await_acks-Gives fuel none) λ (acked, wc).
              Gives-if acked _ _ (λ e. Gives-weaken (λ s h. h e) (post_close-Gives wc))
                (λ _. Gives-pure false (λ s h e. cc e))
