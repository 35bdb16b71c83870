-- ===== src/Rsocket/Reached.antt =====
-- What holds after any calls of send_, irecv_ and recv_ on a connection that buildConnection of
-- rsocket/src/init.cpp has made.
use ffrdma.Common.Sublist
use ffrdma.Common.{
  length-append, ℕ, zero, suc, ◌+◌, ◌≡◌, refl, sym, ap, subst, Bool, true, false, List, [], ◌∷◌,
  length, arith,
}
use ffrdma.Mpi.Machine.{AMessage, Bytes}
use ffrdma.Rsocket.Machine.{Sock, md_buffer_size, done, pure, gets, modify, test, checked}
use ffrdma.Rsocket.Keeps.{Keeps, Ends, Keeps-pure, Keeps-gets, Takes, Gives-bind, Takes-modify}
use ffrdma.Rsocket.Poll.{post_recv}
use ffrdma.Rsocket.Start.{build_connection, post_buffers, post_recv_wr, zeroed, Reaches}
use ffrdma.Rsocket.Order.{announced, IsOrdered}
use ffrdma.Rsocket.Order.Calls.{Reaches-ordered}
use ffrdma.Rsocket.Balance.{IsBalanced}
use ffrdma.Rsocket.Balance.Calls.{Reaches-balanced}

-- Nothing has come or gone.
record IsFresh (remote : ℕ → ℕ → Bytes) (count : ℕ) (s : Sock) : Type 0 where
  memory : s.remote ≡ remote
  none_arrived : s.arrived ≡ []
  none_out : s.out ≡ []
  none_sent : s.sent_count ≡ 0
  none_acked : s.acked_count ≡ 0
  buffers : length s.posted ≡ count

module _ (remote : ℕ → ℕ → Bytes) where
  test-Keeps : (count : ℕ) → Keeps (IsFresh remote count) test
  unfolding test
  test-Keeps count = record { at = λ s h. go s.checks s h }
    where
      go :
          (cs : List Bool) (s : Sock)
          → IsFresh remote count s
          → Ends (IsFresh remote count) (checked cs s)
      go [] s h = h
      go (true ∷ rest) s h = tt
      go (false ∷ rest) s h = record {
        memory = h.memory;
        none_arrived = h.none_arrived;
        none_out = h.none_out;
        none_sent = h.none_sent;
        none_acked = h.none_acked;
        buffers = h.buffers;
      }

  post_recv_wr-Takes :
      (count rinfo : ℕ)
      → Takes (IsFresh remote count) (IsFresh remote (suc count)) (post_recv_wr rinfo)
  unfolding post_recv_wr post_recv
  post_recv_wr-Takes count rinfo = Gives-bind test _ ((test-Keeps count)) λ _.
      Gives-bind test _ ((test-Keeps count)) λ _.
        Takes-modify {P = IsFresh remote count} {Q = IsFresh remote (suc count)} _ λ s h. record {
          memory = h.memory;
          none_arrived = h.none_arrived;
          none_out = h.none_out;
          none_sent = h.none_sent;
          none_acked = h.none_acked;
          buffers = omega (arith, h.buffers, length-append s.posted (rinfo ∷ []));
        }

  post_buffers-Takes :
      (count more rinfo : ℕ)
      → Takes (IsFresh remote count) (IsFresh remote (more + count)) (post_buffers more rinfo)
  unfolding post_buffers
  post_buffers-Takes count zero rinfo =
      subst (λ n. Takes (IsFresh remote count) (IsFresh remote n) (pure tt)) (omega arith)
        ((Keeps-pure tt))
  post_buffers-Takes count (suc more) rinfo =
      Gives-bind (post_recv_wr rinfo) _ (post_recv_wr-Takes count rinfo) λ _.
        subst
          (λ n.
            Takes (IsFresh remote (suc count)) (IsFresh remote n) (post_buffers more (suc rinfo)))
          (omega arith) (post_buffers-Takes (suc count) more (suc rinfo))

-- What the two invariants say of a connection, and the receive buffers posted.
abbrev IsBuilt : (ℕ → ℕ → Bytes) → Sock → Type 0
IsBuilt remote s =
    IsOrdered remote [] [] false s × IsBalanced 0 0 s × (length s.posted ≡ md_buffer_size)

abbrev Same : (ℕ → ℕ → Bytes) → Sock → Type 0
Same remote s = s.remote ≡ remote

build_connection-Takes :
    (remote : ℕ → ℕ → Bytes) (node_id : ℕ)
    → Takes (Same remote) (IsBuilt remote) (build_connection node_id)
unfolding build_connection
build_connection-Takes remote node_id =
    Gives-bind (modify (zeroed node_id)) _
      (Takes-modify {P = Same remote} {Q = Fresh 0} (zeroed node_id) (λ s e. record {
        memory = e;
        none_arrived = refl;
        none_out = refl;
        none_sent = refl;
        none_acked = refl;
        buffers = refl;
      }))
      λ _. Gives-bind test _ t λ _. Gives-bind test _ t λ _. Gives-bind test _ t λ _.
        Gives-bind test _ t λ _. Gives-bind test _ t λ _.
          Gives-bind (gets (λ s. s.next)) _ ((Keeps-gets (λ s. s.next))) λ recv_buffer.
            Gives-bind (modify _) _
              (Takes-modify {P = Fresh 0} {Q = Fresh 0} _ (λ s h. record {
                memory = h.memory;
                none_arrived = h.none_arrived;
                none_out = h.none_out;
                none_sent = h.none_sent;
                none_acked = h.none_acked;
                buffers = h.buffers;
              }))
              λ _.
                Gives-bind (post_buffers md_buffer_size recv_buffer) _
                  (post_buffers-Takes remote 0 md_buffer_size recv_buffer)
                  λ _. Takes-modify {P = Fresh md_buffer_size} {Q = IsBuilt remote} _ (λ s h. (
                    record {
                      memory = h.memory;
                      seen = [];
                      split = ap (λ l. announced remote l) (sym h.none_arrived);
                      part = Sublist.refl [];
                      whole = λ _ _. refl;
                    },
                    record {
                      window = rw (h.none_out, h.none_acked) refl;
                      acks = rw h.none_acked refl;
                      metas = rw h.none_sent refl;
                      sent = rw (h.none_sent, h.none_out) (omega arith);
                    },
                    h.buffers,
                  ))
  where
    Fresh : ℕ → Sock → Type 0
    Fresh = IsFresh remote

    t : Takes (Fresh 0) (Fresh 0) test
    t = (test-Keeps remote 0)

built : (s s' : Sock) (node_id : ℕ) → build_connection node_id s ≡ done tt s' → IsBuilt s.remote s'
built s s' node_id e =
    subst (Ends (IsBuilt s.remote)) e ((build_connection-Takes s.remote node_id).at s refl)

-- After calls of send_, irecv_ and recv_ that return on a connection that buildConnection has made,
-- the messages that the receiving calls returned and those still in recv_queue are, without
-- exception and in the same order, a part of the messages announced by the completions handled;
-- with those of wr_queue these are all announced; and while close_flag is not set none is missing.
pub messages_in_order :
    (s s' s'' : Sock) (node_id : ℕ) (taken : List AMessage)
    → build_connection node_id s ≡ done tt s'
    → Reaches s' taken s''
    → IsOrdered s.remote taken [] false s''
messages_in_order s s' s'' node_id taken e r =
    Reaches-ordered s.remote s' s'' taken (built s s' node_id e).0 r

-- After calls of send_, irecv_ and recv_ that return on a connection that buildConnection has made,
-- peer_buff_count is 50 less the messages announced and not acknowledged, below 0 where there are
-- more; ack_counter is the number of acknowledgements and metadata_counter that of the sends that
-- have completed, each modulo 2^64; and no more sends have completed than messages were announced.
pub counters-IsBalanced :
    (s s' s'' : Sock) (node_id : ℕ) (taken : List AMessage)
    → build_connection node_id s ≡ done tt s'
    → Reaches s' taken s''
    → IsBalanced 0 0 s''
counters-IsBalanced s s' s'' node_id taken e r =
    Reaches-balanced s' s'' taken (built s s' node_id e).1 r
