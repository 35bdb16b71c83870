-- ===== src/Rsocket/Order/Resolve.antt =====
-- resolve_wr_queue of rsocket/src/poll_wc.cpp keeps the order of the messages.
use ffrdma.Common.Sublist
use ffrdma.Common.{
  ℕ, zero, suc, ◌≡◌, refl, sym, ap, subst, ◌∙◌, Bool, true, false, Option, none, some, List, [],
  ◌∷◌, ◌++◌, map, append_assoc, map-append, Sublist, sublist-append_left, ℤ, pos, negsuc, ◌==◌,
  if◌then◌else◌, eqb_ℤ,
}
use ffrdma.Mpi.Machine.{AMessage, Bytes}
use ffrdma.Rsocket.Machine.{
  blocked, fault, MetaData, metadata_normal, metadata_ack, metadata_close, Wc, Sock, Region, pure,
  gets, modify, test,
}
use ffrdma.Rsocket.Keeps.{
  Keeps-gets, Keeps, Ends, Takes-modify, Keeps-pure, Gives-if, Gives, Finishes, Gives-bind,
  Gives-pure, Gives-stop, Gives-given, Takes,
}
use ffrdma.Rsocket.Poll.{wait_sent, post_recv}
use ffrdma.Rsocket.Handle.{
  handle_normal, handle_ack, free_acked, free_copy, without_region, export_only, dispatch,
  recv_wc_handle, acknowledge, fetch, ack_solved, error_wc, read_solved, pop_wc, take_wc,
  push_message, resolve_stat, resolve_next, resolve_loop, resolve_wr_queue, resolve_rounds,
  succeeded, create_read, create_empty, send_ack, ack_rounds,
}
use ffrdma.Rsocket.Stable.{IsStable, Keeps-test, Keeps-wait_sent, Keeps-post_recv, Keeps-send_ack}
use ffrdma.Rsocket.Order.{
  Content, content, announced_by, announcement, announced, IsOrdered, IsOrdered-IsStable,
}

module _ (remote : ℕ → ℕ → Bytes) (taken : List AMessage) where
  abbrev pub Holds : List Content → Bool → Sock → Type 0
  Holds = IsOrdered remote taken

  -- What is in hand may be dropped, at the price of completeness.
  pub dropped : (pending : List Content) (l : Bool) (s : Sock) → Holds pending l s → Holds [] true s
  dropped pending l s h = record {
    memory = h.memory;
    seen = h.seen ++ pending;
    split = append_assoc h.seen pending (announced remote s.wr_queue) ∙ h.split;
    part = Sublist.trans h.part (sublist-append_left h.seen pending);
    whole = λ e. cc e;
  }

  abbrev Fetched : MetaData → Option AMessage → Sock → Type 0
  Fetched md none s = Holds (announced_by remote md ∷ []) false s
  Fetched md (some m) s = Holds (content m ∷ []) false s

  module _ (md : MetaData) where
    abbrev In : Sock → Type 0
    In = Holds (announced_by remote md ∷ []) false

    st : IsStable In
    st = IsOrdered-IsStable remote taken (announced_by remote md ∷ []) false

    create_read-Gives :
        (md.length == 0) ≡ false
        → Gives In (λ m s. (content m ≡ announced_by remote md) × In s) (create_read md)
    unfolding create_read
    create_read-Gives e = record { at = λ s h. (rw e (rw h.memory refl), st.next s (suc s.next) h) }

    create_empty-Gives :
        (md.length == 0) ≡ true
        → Gives In (λ m s. (content m ≡ announced_by remote md) × In s) (create_empty md)
    unfolding create_empty
    create_empty-Gives e = record { at = λ s h. (rw e refl, st.next s (suc s.next) h) }

    found :
        (m : AMessage)
        → content m ≡ announced_by remote md
        → (s : Sock) → In s
        → Fetched md (some m) s
    found m e s h = subst (λ c. Holds (c ∷ []) false s) (sym e) h

    fetch-Gives : Gives In (Fetched md) (fetch md)
    unfolding fetch
    fetch-Gives =
        Gives-if (md.length == 0) _ _
          (λ e.
            Gives-bind (create_empty md) _ (create_empty-Gives e)
              λ m. Gives-given λ c. Gives-pure (some m) (found m c))
          λ e. Gives-bind (create_read md) _ (create_read-Gives e) λ m. Gives-given λ c.
            Gives-bind test _ ((Keeps-test st)) λ _.
              Gives-bind test _ ((Keeps-test st))
                λ _. Gives-bind wait_sent _ ((Keeps-wait_sent st)) λ wc. read m c (succeeded wc)
      where
        read :
            (m : AMessage)
            → content m ≡ announced_by remote md
            → (b : Bool) → Gives In (Fetched md) (pure (if b then some m else none))
        read m c true = Gives-pure (some m) (found m c)
        read m c false = Gives-pure none (λ s h. h)

  -- What recv_wc_handle returns.
  abbrev pub Handled : ℕ × Option AMessage → Sock → Type 0
  Handled (stat, none) s = Holds [] (stat == error_wc) s
  Handled (stat, some m) s = Holds (content m ∷ []) false s

  acknowledge-Gives :
      (wc : Wc) (o : Option AMessage) → Gives (Fetched wc.md_buffer o) Handled (acknowledge wc o)
  unfolding acknowledge
  acknowledge-Gives wc none =
      Gives-pure (error_wc, none) (dropped (announced_by remote wc.md_buffer ∷ []) false)
  acknowledge-Gives wc (some m) = Gives-bind (gets ack_rounds) _ ((Keeps-gets ack_rounds)) λ fuel.
      Gives-bind (send_ack fuel wc.md_buffer) _ ((Keeps-send_ack kept fuel wc.md_buffer)) λ _.
        Gives-bind (post_recv wc.rinfo) _ ((Keeps-post_recv kept wc.rinfo))
          λ _. Gives-pure (read_solved, some m) (λ s h. h)
    where
      kept : IsStable (Holds (content m ∷ []) false)
      kept = IsOrdered-IsStable remote taken (content m ∷ []) false

  abbrev Quiet : Sock → Type 0
  Quiet = Holds [] false

  quiet : IsStable Quiet
  quiet = IsOrdered-IsStable remote taken [] false

  free_acked-Keeps : (md : MetaData) → Keeps Quiet (free_acked md)
  unfolding free_acked free_copy
  free_acked-Keeps md =
      Gives-if (md.mr_addr == 0) _ _ (λ _. Keeps-pure tt)
        λ _. record { at = λ s h. go (without_region md.mr_addr md.msg_addr s.exported) s h }
    where
      go : (rs : Option (List Region)) (s : Sock) → Quiet s → Ends Quiet (export_only rs s)
      go none s h = tt
      go (some rs) s h = record {
        memory = h.memory;
        seen = h.seen;
        split = h.split;
        part = h.part;
        whole = h.whole;
      }

  handle_ack-Gives : (wc : Wc) → Gives Quiet Handled (handle_ack wc)
  unfolding handle_ack
  handle_ack-Gives wc =
      Gives-bind (modify _) _
        ((Takes-modify _ (λ s h. record {
          memory = h.memory;
          seen = h.seen;
          split = h.split;
          part = h.part;
          whole = h.whole;
        })))
        λ _. Gives-bind (free_acked wc.md_buffer) _ ((free_acked-Keeps wc.md_buffer)) λ _.
          Gives-bind (modify _) _
            ((Takes-modify _ (λ s h. record {
              memory = h.memory;
              seen = h.seen;
              split = h.split;
              part = h.part;
              whole = h.whole;
            })))
            λ _.
              Gives-bind (post_recv wc.rinfo) _ ((Keeps-post_recv quiet wc.rinfo))
                λ _. Gives-pure (ack_solved, none) (λ s h. h)

  dispatch-Gives :
      (wc : Wc)
      → (wc.status == 0) ≡ true
      → Gives (Holds (announcement remote wc) false) Handled (dispatch wc)
  unfolding dispatch handle_normal
  dispatch-Gives wc good = rw good (
      Gives-if (wc.md_buffer.type == metadata_normal) _ _
        (λ e.
          rw e
            (Gives-bind (fetch wc.md_buffer) _ (fetch-Gives wc.md_buffer) (acknowledge-Gives wc)))
        λ e. rw e (
          Gives-if (wc.md_buffer.type == metadata_ack) _ _ (λ _. handle_ack-Gives wc)
            λ _.
              Gives-if (wc.md_buffer.type == metadata_close) _ _
                (λ _.
                  Gives-bind (post_recv wc.rinfo) _ ((Keeps-post_recv quiet wc.rinfo))
                    λ _. Gives-pure (error_wc, none) (dropped [] false))
                (λ _. Gives-stop fault tt)))

  handle-Gives :
      (wc : Wc) → Gives (Holds (announcement remote wc) false) Handled (recv_wc_handle wc)
  unfolding recv_wc_handle
  handle-Gives wc =
      Gives-if (wc.status == 0) _ _ (dispatch-Gives wc)
        (λ e. Gives-pure (error_wc, none) (dropped (announcement remote wc) false))

  abbrev Popped : Option Wc → Sock → Type 0
  Popped none = Quiet
  Popped (some wc) = Holds (announcement remote wc) false

  pop_wc-Gives : Gives Quiet Popped pop_wc
  unfolding pop_wc
  pop_wc-Gives = record { at = λ s h. go s.wr_queue s refl h }
    where
      go : (wcs : List Wc) (s : Sock) → s.wr_queue ≡ wcs → Quiet s → Finishes Popped (take_wc wcs s)
      go [] s e h = h
      go (wc ∷ wcs) s e h = record {
        memory = h.memory;
        seen = h.seen;
        split = ap (λ q. h.seen ++ announced remote q) (sym e) ∙ h.split;
        part = h.part;
        whole = h.whole;
      }

  push_message-Takes : (m : AMessage) → Takes (Holds (content m ∷ []) false) Quiet (push_message m)
  unfolding push_message
  push_message-Takes m = Takes-modify _ λ s h. record {
    memory = h.memory;
    seen = h.seen ++ (content m ∷ []);
    split = append_assoc h.seen (content m ∷ []) (announced remote s.wr_queue) ∙ h.split;
    part =
        subst (λ l. Sublist l (h.seen ++ (content m ∷ []))) (sym (longer s.recv_queue))
          (Sublist.append h.part (Sublist.refl (content m ∷ [])));
    whole = λ e c. longer s.recv_queue ∙ ap (λ l. l ++ (content m ∷ [])) (h.whole e c);
  }
    where
      longer :
          (q : List AMessage)
          → map content (taken ++ (q ++ (m ∷ []))) ≡ map content (taken ++ q) ++ (content m ∷ [])
      longer q =
          ap (map content) (sym (append_assoc taken q (m ∷ [])))
          ∙ map-append content (taken ++ q) (m ∷ [])

  -- What resolve_wr_queue returns.
  abbrev pub Resolved : ℤ → Sock → Type 0
  Resolved flag = Holds [] (eqb_ℤ flag (negsuc 0))

  resolve_loop-Gives :
      (fuel : ℕ) (flag : ℤ)
      → eqb_ℤ flag (negsuc 0) ≡ false
      → Gives Quiet Resolved (resolve_loop fuel flag)
  unfolding resolve_loop
  resolve_loop-Gives zero flag e = Gives-stop blocked tt
  resolve_loop-Gives (suc fuel) flag e =
      Gives-bind pop_wc _ pop_wc-Gives (next (resolve_loop-Gives fuel))
    where
      after_stat :
          ((f : ℤ) → eqb_ℤ f (negsuc 0) ≡ false → Gives Quiet Resolved (resolve_loop fuel f))
          → (r : ℕ × Option AMessage)
          → Gives (Handled r) Resolved (resolve_stat (resolve_loop fuel) flag r)
      after_stat ih (stat, none) =
          unfold resolve_stat in
          Gives-if (stat == error_wc) _ _
            (λ c. Gives-pure (negsuc 0) (λ s h. subst (λ b. Holds [] b s) c h))
            (λ c. record { at = λ s h. (ih flag e).at s (subst (λ b. Holds [] b s) c h) })
      after_stat ih (stat, some m) =
          unfold resolve_stat in
          Gives-bind (push_message m) _ ((push_message-Takes m)) (λ _. ih (pos 0) refl)

      next :
          ((f : ℤ) → eqb_ℤ f (negsuc 0) ≡ false → Gives Quiet Resolved (resolve_loop fuel f))
          → (w : Option Wc) → Gives (Popped w) Resolved (resolve_next (resolve_loop fuel) flag w)
      next ih none =
          unfold resolve_next in Gives-pure flag (λ s h. subst (λ b. Holds [] b s) (sym e) h)
      next ih (some wc) =
          unfold resolve_next in Gives-bind (recv_wc_handle wc) _ (handle-Gives wc) (after_stat ih)

  pub resolve-Gives : Gives Quiet Resolved resolve_wr_queue
  unfolding resolve_wr_queue
  resolve-Gives =
      Gives-bind (gets resolve_rounds) _ ((Keeps-gets resolve_rounds))
        λ fuel. resolve_loop-Gives fuel (pos 1) refl
