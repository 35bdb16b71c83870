-- ===== src/Rsocket/Locked.antt =====
-- The lock that recv_ of rsocket/src/rdma_socket.cpp keeps where it finds close_flag set.
use ffrdma.Common.{◌∙◌}
use ffrdma.Rsocket.Poll.{rounds}
use ffrdma.Rsocket.Machine.{M}
use ffrdma.Common.{ap, subst, Bool, Option, some, List, ◌∷◌, ◌||◌, not, ◌==◌, if◌then◌else◌}
use ffrdma.Rsocket.Keeps.{Gives-bind, Gives-if, Keeps-pure, Keeps-fault, Keeps-gets, Ends}
use ffrdma.Rsocket.Machine.{Wc, Region, metadata_ack, tried, and_then}
use ffrdma.Rsocket.Closing.{close_handle, free_closed, is_recv, collected}
use ffrdma.Rsocket.Handle.{free_copy, without_region, export_only}
use ffrdma.Rsocket.Closing.{handle_disconnect, lock_for_good, close_all, collect_ready}
use ffrdma.Rsocket.Keeps.{Takes, Keeps}
use ffrdma.Rsocket.Machine.{blocked}
use ffrdma.Rsocket.Closing.{send_close_md}
use ffrdma.Common.{◌≡◌, refl, true, false, none, [], negsuc}
use ffrdma.Mpi.Machine.{AMessage}
use ffrdma.Rsocket.Machine.{Sock, done, try_close_lock, pure, gets, modify, ◌>>=◌}
use ffrdma.Rsocket.Handle.{resolve_wr_queue, resolve_loop, resolve_next, pop_wc}
use ffrdma.Rsocket.Transfer.{
  send_, recv_, recv_open, recv_popped, recv_idle, irecv_, drain_ready, pop_message, set_close_flag,
}

-- A closed connection with no message left, whose lock nobody holds.
abbrev pub closed : Sock → Sock
closed s = record s {
  close_flag = true;
  recv_queue = [];
  wr_queue = [];
  ready = [];
  locks = [];
  self_locked = false;
}

abbrev pub locked_out : Sock → Sock
locked_out s = record (closed s) { self_locked = true }

IsLocked : Sock → Type 0
IsLocked s = s.self_locked ≡ true

try_lock_fails : (s : Sock) → IsLocked s → try_close_lock s ≡ done true s
unfolding try_close_lock IsLocked
try_lock_fails s e = go s.self_locked e
  where
    go : (b : Bool) → b ≡ true → (if b then done true s else tried s.locks s) ≡ done true s
    go true e = refl
    go false e = cc e

-- What every call does while the lock stays held.
abbrev pub IsShut : AMessage → Sock → Type 0
IsShut msg s =
    (send_ msg s ≡ done (negsuc 0) s)
    × (recv_ s ≡ done none s)
    × (irecv_ s ≡ done none s)
    × (send_close_md s ≡ done false s)

after_done :
    {A B : Type 0} (m : M A) (k : A → M B) (s s' : Sock) (a : A)
    → m s ≡ done a s'
    → (m >>= k) s ≡ k a s'
unfolding ◌>>=◌
after_done m k s s' a e = ap (λ o. and_then o k) e

locked-IsShut : (s : Sock) (msg : AMessage) → IsLocked s → IsShut msg s
unfolding recv_ irecv_ send_ send_close_md pure gets
locked-IsShut s msg e = (
  after_done try_close_lock _ s s true (try_lock_fails s e),
  after_done try_close_lock _ s s true (try_lock_fails s e),
  after_done try_close_lock _ s s true (try_lock_fails s e),
  after_done try_close_lock _ s s true (try_lock_fails s e)
      ∙ after_done (gets rounds) _ s s (rounds s) refl,
)

-- On a closed connection with no message left recv_ returns NULL and keeps close_lock. After that
-- send_ returns -1, recv_ and irecv_ return NULL and send_close_md returns 0, each at once and with
-- nothing changed, and wait_for_close waits for ever for the lock on a disconnection.
pub recv_closed-locks :
    (s : Sock) (msg : AMessage)
    → (recv_ (closed s) ≡ done none (locked_out s))
      × IsShut msg (locked_out s)
      × (handle_disconnect (locked_out s) ≡ blocked)
unfolding handle_disconnect lock_for_good recv_ recv_open recv_popped recv_idle drain_ready
    pop_message set_close_flag resolve_wr_queue resolve_loop resolve_next pop_wc try_close_lock pure
    gets modify ◌>>=◌ IsLocked
recv_closed-locks s msg = (refl, locked-IsShut (locked_out s) msg refl, refl)

close_all-Keeps : (wcs : List Wc) → Keeps IsLocked (close_all wcs)
unfolding close_all close_handle free_closed free_copy IsLocked
close_all-Keeps [] = Keeps-pure tt
close_all-Keeps (wc ∷ wcs) =
    Gives-bind (close_handle wc) _
      (Gives-if ((wc.rinfo == 0) || not (is_recv wc.opcode)) _ _ (λ _. Keeps-pure tt)
        λ _.
          Gives-if (wc.md_buffer.type == metadata_ack) _ _
            (λ _.
              Gives-if (wc.md_buffer.mr_addr == 0) _ _
                (λ _.
                  Gives-if (wc.md_buffer.msg_addr == 0) _ _ (λ _. Keeps-pure tt) (λ _. Keeps-fault))
                (λ _. record {
                  at = λ s h.
                      go (without_region wc.md_buffer.mr_addr wc.md_buffer.msg_addr s.exported) s h;
                }))
            (λ _. Keeps-pure tt))
      (λ _. close_all-Keeps wcs)
  where
    go : (rs : Option (List Region)) (s : Sock) → IsLocked s → Ends IsLocked (export_only rs s)
    go none s h = tt
    go (some rs) s h = h

handle_disconnect-locks : Takes (λ _. Unit {0}) IsLocked handle_disconnect
unfolding handle_disconnect lock_for_good collect_ready modify IsLocked
handle_disconnect-locks =
    Gives-bind lock_for_good _ (record { at = λ s h. locks s.self_locked s })
      λ _.
        Gives-bind collect_ready _ (record { at = λ s h. collects s.ready s h })
          λ _. Gives-bind (gets (λ s. s.wr_queue)) _ ((Keeps-gets (λ s. s.wr_queue))) λ wcs.
            Gives-bind (modify (λ s. record s { wr_queue = [] })) _ (record { at = λ s h. h })
              λ _. (close_all-Keeps wcs)
  where
    locks :
        (b : Bool) (s : Sock)
        → Ends IsLocked (if b then blocked else done tt (record s { self_locked = true }))
    locks true s = tt
    locks false s = refl

    collects : (l : List (List Wc)) (s : Sock) → IsLocked s → Ends IsLocked (collected l s)
    collects [] s h = h
    collects (wcs ∷ rest) s h = h

-- Once wait_for_close has handled a disconnection, send_ returns -1, recv_ and irecv_ return NULL and
-- send_close_md returns 0, each at once and with nothing changed.
pub handle_disconnect-IsShut :
    (s s' : Sock) (msg : AMessage) → handle_disconnect s ≡ done tt s' → IsShut msg s'
handle_disconnect-IsShut s s' msg e =
    locked-IsShut s' msg (subst (Ends IsLocked) e (handle_disconnect-locks.at s tt))
