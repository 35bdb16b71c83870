-- ===== src/Rsocket/Stable.antt =====
-- Facts about a socket that no completion, lock or checked call changes, and that hold through the
-- waiting calls of rsocket/src/poll_wc.cpp.
pub mod Resolve
use ffrdma.Common.{
  ℕ, zero, suc, ◌≡◌, refl, Bool, true, false, Option, none, some, List, [], ◌∷◌, ◌++◌, pos, negsuc,
  ◌-◌, ◌==◌, if◌then◌else◌, eqb_ℤ,
}
use ffrdma.Mpi.Machine.{AMessage}
use ffrdma.Rsocket.Machine.{
  metadata_normal, metadata_ack, metadata_close, MetaData, Wc, Sock, done, pure, ◌>>=◌, gets,
  modify, test, checked, try_close_lock, tried,
}
use ffrdma.Rsocket.Keeps.{
  Keeps-fault, Keeps, Ends, Gives-bind, Takes-modify, Keeps-pure, Keeps-gets, Keeps-blocked,
  Gives-if,
}
use ffrdma.Rsocket.Poll.{
  poll_wc, get_cq_event, drain_event, push_wcs, receives, last_send, flag_of, poll_until_sent,
  wait_sent, post_recv, dereg_metadata, rounds, post_send,
}
use ffrdma.Rsocket.Handle.{
  handle_ack, recv_wc_handle, dispatch, handle_normal, create_read, create_empty, fetch, send_ack,
  as_ack, acknowledge, succeeded, ack_rounds,
}

-- The receive completions of an event.
abbrev pub arrivals : Option (List Wc) → List Wc
arrivals none = []
arrivals (some wcs) = receives wcs

pub record IsStable (P : Sock → Type 0) : Type 0 where
  pub checks : (s : Sock) (l : List Bool) → P s → P (record s { checks = l })
  pub locks :
      (s : Sock) (held : Bool) (rest : List Bool)
      → s.locks ≡ held ∷ rest
      → P s
      → P (record s { locks = rest })
  pub next : (s : Sock) (n : ℕ) → P s → P (record s { next = n })
  pub mrs : (s : Sock) (n : ℕ) → P s → P (record s { mrs = n })
  pub posted : (s : Sock) (l : List ℕ) → P s → P (record s { posted = l })
  pub ack_posted :
      (s : Sock) (md : MetaData) → P s → P (record s { out = s.out ++ (as_ack md ∷ []) })
  pub event :
      (s : Sock) (e : Option (List Wc)) (rest : List (Option (List Wc)))
      → s.events ≡ e ∷ rest
      → P s
      → P (record s {
        events = rest;
        wr_queue = s.wr_queue ++ arrivals e;
        arrived = s.arrived ++ arrivals e;
      })
  pub failed_event :
      (s : Sock) (rest : List (Option (List Wc)))
      → s.events ≡ none ∷ rest
      → P s
      → P (record s { events = rest })

module _ {P : Sock → Type 0} (st : IsStable P) where
  pub Keeps-test : Keeps P test
  unfolding test
  Keeps-test = record { at = λ s h. go s.checks s h }
    where
      go : (cs : List Bool) (s : Sock) → P s → Ends P (checked cs s)
      go [] s h = h
      go (true ∷ rest) s h = tt
      go (false ∷ rest) s h = st.checks s rest h

  tried-Keeps : (ls : List Bool) (s : Sock) → s.locks ≡ ls → P s → Ends P (tried ls s)
  tried-Keeps [] s e h = h
  tried-Keeps (l ∷ rest) s e h = st.locks s l rest e h

  pub Keeps-lock : Keeps P try_close_lock
  unfolding try_close_lock
  Keeps-lock = record { at = λ s h. go s.self_locked s h }
    where
      go : (b : Bool) (s : Sock) → P s → Ends P (if b then done true s else tried s.locks s)
      go true s h = h
      go false s h = tried-Keeps s.locks s refl h

  awaited-Keeps :
      (es : List (Option (List Wc))) (s : Sock)
      → s.events ≡ es
      → P s
      → Ends P ((get_cq_event >>= drain_event) s)
  unfolding get_cq_event drain_event ◌>>=◌ push_wcs modify pure
  awaited-Keeps [] s e h = rw e tt
  awaited-Keeps (none ∷ rest) s e h = rw e (st.failed_event s rest e h)
  awaited-Keeps (some wcs ∷ rest) s e h =
      let s' : Sock = record s {
        events = rest;
        wr_queue = s.wr_queue ++ receives wcs;
        arrived = s.arrived ++ receives wcs;
      } in
      rw e (
        (Gives-bind test (λ _. pure (flag_of (last_send wcs none), last_send wcs none)) Keeps-test
            (λ _. Keeps-pure (flag_of (last_send wcs none), last_send wcs none))).at
          s' (st.event s (some wcs) rest e h))

  pub Keeps-poll_wc : Keeps P poll_wc
  unfolding poll_wc
  Keeps-poll_wc = Gives-bind try_close_lock _ Keeps-lock λ closing.
      Gives-if closing (pure (negsuc 0, none)) (get_cq_event >>= drain_event)
        (λ _. Keeps-pure (negsuc 0, none))
        (λ _. record { at = λ s h. awaited-Keeps s.events s refl h })

  Keeps-poll_until_sent : (fuel : ℕ) → Keeps P (poll_until_sent fuel)
  unfolding poll_until_sent
  Keeps-poll_until_sent zero = Keeps-blocked
  Keeps-poll_until_sent (suc fuel) = Gives-bind poll_wc _ Keeps-poll_wc λ (flag, wc).
      Gives-if (eqb_ℤ flag (pos 0)) (pure wc) (poll_until_sent fuel) (λ _. Keeps-pure wc)
        (λ _. Keeps-poll_until_sent fuel)

  pub Keeps-wait_sent : Keeps P wait_sent
  unfolding wait_sent
  Keeps-wait_sent =
      Gives-bind (gets rounds) poll_until_sent (Keeps-gets rounds) Keeps-poll_until_sent

  pub Keeps-post_recv : (rinfo : ℕ) → Keeps P (post_recv rinfo)
  unfolding post_recv
  Keeps-post_recv rinfo = Gives-bind test _ Keeps-test λ _.
      Takes-modify (λ s. record s { posted = s.posted ++ (rinfo ∷ []) })
        (λ s h. st.posted s (s.posted ++ (rinfo ∷ [])) h)

  pub Keeps-dereg : Keeps P dereg_metadata
  unfolding dereg_metadata
  Keeps-dereg = Takes-modify (λ s. record s { mrs = s.mrs - 1 }) (λ s h. st.mrs s (s.mrs - 1) h)

  Keeps-create_read : (md : MetaData) → Keeps P (create_read md)
  unfolding create_read
  Keeps-create_read md = record { at = λ s h. st.next s (suc s.next) h }

  Keeps-create_empty : (md : MetaData) → Keeps P (create_empty md)
  unfolding create_empty
  Keeps-create_empty md = record { at = λ s h. st.next s (suc s.next) h }

  Keeps-post_ack : (md : MetaData) → Keeps P (post_send (as_ack md))
  unfolding post_send
  Keeps-post_ack md =
      Takes-modify (λ s. record s { out = s.out ++ (as_ack md ∷ []) }) (λ s h. st.ack_posted s md h)

  pub Keeps-send_ack : (fuel : ℕ) (md : MetaData) → Keeps P (send_ack fuel md)
  unfolding send_ack
  Keeps-send_ack zero md = Keeps-blocked
  Keeps-send_ack (suc fuel) md = Gives-bind test _ Keeps-test λ _.
      Gives-bind (post_send (as_ack md)) _ (Keeps-post_ack md) λ _.
        Gives-bind wait_sent _ Keeps-wait_sent λ wc.
          Gives-if (succeeded wc) (pure tt) (send_ack fuel md) (λ _. Keeps-pure tt)
            (λ _. Keeps-send_ack fuel md)

  pub Keeps-fetch : (md : MetaData) → Keeps P (fetch md)
  unfolding fetch
  Keeps-fetch md =
      Gives-if (md.length == 0) _ _
        (λ _. Gives-bind (create_empty md) _ (Keeps-create_empty md) (λ m. Keeps-pure (some m)))
        (λ _. Gives-bind (create_read md) _ (Keeps-create_read md) λ m.
          Gives-bind test _ Keeps-test λ _. Gives-bind test _ Keeps-test λ _.
            Gives-bind wait_sent _ Keeps-wait_sent
              λ wc. Keeps-pure (if succeeded wc then some m else none))

  pub Keeps-acknowledge : (wc : Wc) (m : Option AMessage) → Keeps P (acknowledge wc m)
  unfolding acknowledge
  Keeps-acknowledge wc none = Keeps-pure _
  Keeps-acknowledge wc (some m) = Gives-bind (gets ack_rounds) _ (Keeps-gets ack_rounds) λ fuel.
      Gives-bind (send_ack fuel wc.md_buffer) _ (Keeps-send_ack fuel wc.md_buffer)
        λ _. Gives-bind (post_recv wc.rinfo) _ (Keeps-post_recv wc.rinfo) λ _. Keeps-pure _
