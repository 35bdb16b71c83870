-- ===== src/Rsocket/Balance.antt =====
-- The counters of a socket agree with what was sent and acknowledged, whatever the environment does.
pub mod Calls
use ffrdma.Rsocket.Stable.Resolve.{Keeps-resolve}
use ffrdma.Common.{
  ℕ, zero, suc, ◌+◌, ◌^◌, ◌%◌, ◌≤◌, ◌≡◌, refl, Bool, true, false, Option, none, some, List, [], ◌∷◌,
  ◌++◌, ℤ, pos, negsuc, ◌+ℤ◌, ◌-ℤ◌, pos_part, neg_part, ◌==◌, if◌then◌else◌, arith, eqb_ℤ, leb_ℤ,
  ltb, ◌∙◌, ap,
}
use ffrdma.Mpi.Machine.{AMessage, read, Bytes}
use ffrdma.Rsocket.Machine.{
  MetaData, metadata_normal, metadata_ack, metadata_close, md_buffer_size, Wc, Region, Sock, Out,
  done, died, fault, blocked, M, pure, ◌>>=◌, gets, modify, test, try_close_lock, count_up, stop,
}
use ffrdma.Rsocket.Keeps.{
  Keeps, Ends, Gives-bind, Takes-modify, Keeps-pure, Keeps-blocked, Keeps-gets, Keeps-fault,
  Gives-if, Takes, Gives-pure,
}
use ffrdma.Rsocket.Poll.{
  poll_wc, wait_sent, post_recv, post_send, post_send_wr, dereg_metadata, rounds,
}
use ffrdma.Rsocket.Stable.{
  IsStable, Keeps-test, Keeps-lock, Keeps-poll_wc, Keeps-wait_sent, Keeps-post_recv, Keeps-dereg,
  Keeps-fetch, Keeps-acknowledge,
}
use ffrdma.Rsocket.Handle.{
  handle_normal, handle_ack, free_acked, free_copy, without_region, export_only, dispatch,
  recv_wc_handle, acknowledge, fetch, no_message, ack_solved, error_wc, pop_wc, take_wc,
  push_message, resolve_stat, resolve_next, resolve_loop, resolve_wr_queue, resolve_rounds,
  succeeded,
}
use ffrdma.Rsocket.Transfer.{
  send_, send_open, prepare, export_copy, demand, empty_metadata, await_buffer, announce,
  count_sent, set_close_flag, note_close, drain_ready, drained, kept, pop_message, take_message,
  irecv_, irecv_resolved, irecv_popped, recv_, recv_open, recv_popped, recv_idle, recv_waited,
  wait_message,
}

-- The messages among the metadata that went out.
abbrev pub normals : List MetaData → ℕ
normals [] = 0
normals (md ∷ mds) = (if md.type == metadata_normal then 1 else 0) + normals mds

-- The count of the peer's buffers is their number less the messages announced and not acknowledged,
-- `a` acknowledgements being in hand; the counters count modulo 2^64; and k more messages than those
-- counted have been announced.
pub record IsBalanced (a k : ℕ) (s : Sock) : Type 0 where
  pub window :
      pos_part s.peer_buff_count + normals s.out
      ≡ md_buffer_size + s.acked_count + a + neg_part s.peer_buff_count
  pub acks : s.ack_counter ≡ s.acked_count % 2 ^ 64
  pub metas : s.metadata_counter ≡ s.sent_count % 2 ^ 64
  pub sent : s.sent_count + k ≤ normals s.out

pub normals-append : (a b : List MetaData) → normals (a ++ b) ≡ normals a + normals b
normals-append [] b = omega arith
normals-append (md ∷ mds) b = omega (arith, normals-append mds b)

pub plus_one : (p : ℤ) → pos_part (p +ℤ pos 1) + neg_part p ≡ pos_part p + neg_part (p +ℤ pos 1) + 1
plus_one p = ground arith

pub minus_one :
    (p : ℤ) → pos_part (p -ℤ pos 1) + neg_part p + 1 ≡ pos_part p + neg_part (p -ℤ pos 1)
minus_one p = ground arith

count_up-mod : (c n : ℕ) → c ≡ n % 2 ^ 64 → count_up c ≡ suc n % 2 ^ 64
count_up-mod c n e = omega arith

module _ (a k : ℕ) where
  pub IsBalanced-IsStable : IsStable (IsBalanced a k)
  IsBalanced-IsStable = record {
    checks = λ s l h. record { window = h.window; acks = h.acks; metas = h.metas; sent = h.sent };
    locks = λ s held rest e h. record {
      window = h.window;
      acks = h.acks;
      metas = h.metas;
      sent = h.sent;
    };
    next = λ s n h. record { window = h.window; acks = h.acks; metas = h.metas; sent = h.sent };
    mrs = λ s n h. record { window = h.window; acks = h.acks; metas = h.metas; sent = h.sent };
    posted = λ s l h. record { window = h.window; acks = h.acks; metas = h.metas; sent = h.sent };
    ack_posted = λ s md h. record {
      window =
          omega (arith, h.window, normals-append s.out (record md { type = metadata_ack } ∷ []));
      acks = h.acks;
      metas = h.metas;
      sent = omega (arith, h.sent, normals-append s.out (record md { type = metadata_ack } ∷ []));
    };
    event = λ s e rest eq h. record {
      window = h.window;
      acks = h.acks;
      metas = h.metas;
      sent = h.sent;
    };
    failed_event =
        λ s rest eq h. record { window = h.window; acks = h.acks; metas = h.metas; sent = h.sent };
  }

  free_acked-Keeps : (md : MetaData) → Keeps (IsBalanced a k) (free_acked md)
  unfolding free_acked free_copy
  free_acked-Keeps md =
      Gives-if (md.mr_addr == 0) _ _ (λ _. Keeps-pure tt)
        λ _. record { at = λ s h. go (without_region md.mr_addr md.msg_addr s.exported) s h }
    where
      go :
          (rs : Option (List Region)) (s : Sock)
          → IsBalanced a k s
          → Ends (IsBalanced a k) (export_only rs s)
      go none s h = tt
      go (some rs) s h = record { window = h.window; acks = h.acks; metas = h.metas; sent = h.sent }

module _ (k : ℕ) where
  abbrev pub B : Sock → Type 0
  B = IsBalanced 0 k

  handle_ack-Keeps : (wc : Wc) → Keeps B (handle_ack wc)
  unfolding handle_ack
  handle_ack-Keeps wc =
      (Gives-bind (modify (λ s. record s { peer_buff_count = s.peer_buff_count +ℤ pos 1 })) _
        (Takes-modify {P = B} {Q = IsBalanced 1 k} _ (λ s h. record {
          window = omega (arith, h.window, plus_one s.peer_buff_count);
          acks = h.acks;
          metas = h.metas;
          sent = h.sent;
        }))
        λ _. Gives-bind (free_acked wc.md_buffer) _ ((free_acked-Keeps 1 k wc.md_buffer)) λ _.
          Gives-bind (modify _) _
            (Takes-modify {P = IsBalanced 1 k} {Q = B} _ (λ s h. record {
              window = omega (arith, h.window);
              acks = count_up-mod s.ack_counter s.acked_count h.acks;
              metas = h.metas;
              sent = h.sent;
            }))
            λ _.
              (Gives-bind (post_recv wc.rinfo) _
                (Keeps-post_recv (IsBalanced-IsStable 0 k) wc.rinfo) λ _. Keeps-pure _))

  pop_wc-Keeps : Keeps B pop_wc
  unfolding pop_wc
  pop_wc-Keeps = record { at = λ s h. go s.wr_queue s h }
    where
      go : (wcs : List Wc) (s : Sock) → B s → Ends B (take_wc wcs s)
      go [] s h = h
      go (wc ∷ wcs) s h = record {
        window = h.window;
        acks = h.acks;
        metas = h.metas;
        sent = h.sent;
      }

  push_message-Keeps : (m : AMessage) → Keeps B (push_message m)
  unfolding push_message
  push_message-Keeps m =
      Takes-modify _
        λ s h. record { window = h.window; acks = h.acks; metas = h.metas; sent = h.sent }

  pub resolve-Keeps : Keeps B resolve_wr_queue
  resolve-Keeps =
      Keeps-resolve (IsBalanced-IsStable 0 k) handle_ack-Keeps pop_wc-Keeps push_message-Keeps
