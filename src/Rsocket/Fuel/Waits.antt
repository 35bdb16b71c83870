-- ===== src/Rsocket/Fuel/Waits.antt =====
-- The loop of recv_ of rsocket/src/rdma_socket.cpp has all the fuel it needs.
use ffrdma.Rsocket.Fuel.{agreeing, finishes_map, IsShort, poll_wc-shortens}
use ffrdma.Rsocket.Stable.Resolve.{Keeps-resolve}
use ffrdma.Rsocket.Transfer.{wait_message}
use ffrdma.Rsocket.Handle.{
  free_acked, free_copy, without_region, export_only, handle_ack, resolve_wr_queue, pop_wc, take_wc,
  push_message,
}
use ffrdma.Rsocket.Machine.{Region, MetaData}
use ffrdma.Common.{
  ℕ, zero, suc, ◌≤◌, ◌≡◌, refl, sym, ap, Bool, true, false, Option, none, some, List, [], ◌∷◌, ℤ,
  pos, negsuc, length, arith, if◌then◌else◌, eqb_ℤ, ◌==◌,
}
use ffrdma.Mpi.Machine.{AMessage}
use ffrdma.Rsocket.Machine.{Wc, Sock, M, pure, ◌>>=◌, modify, MetaData, Region}
use ffrdma.Rsocket.Keeps.{Keeps, Ends, Gives-bind, Keeps-pure, Takes-modify, Gives-if}
use ffrdma.Rsocket.Poll.{poll_wc, rounds, post_recv}
use ffrdma.Rsocket.Stable.{IsStable, Keeps-post_recv}
use ffrdma.Rsocket.Handle.{
  resolve_wr_queue, pop_wc, take_wc, push_message, handle_ack, free_acked, free_copy,
  without_region, export_only,
}
use ffrdma.Rsocket.Fuel.Rounds.{Step, leave, go_on, Run, Follows, Follows-Run, Follows-then}

module _ (n : ℕ) where
  IsShort-IsStable : IsStable (IsShort n)
  IsShort-IsStable = record {
    checks = λ s l h. record { short = h.short; free = h.free };
    locks =
        λ s held rest e h. record { short = omega (arith, h.short, ap length e); free = h.free };
    next = λ s n h. record { short = h.short; free = h.free };
    mrs = λ s n h. record { short = h.short; free = h.free };
    posted = λ s l h. record { short = h.short; free = h.free };
    ack_posted = λ s md h. record { short = h.short; free = h.free };
    event = λ s e rest eq h. record { short = omega (arith, h.short, ap length eq); free = h.free };
    failed_event =
        λ s rest eq h. record { short = omega (arith, h.short, ap length eq); free = h.free };
  }

  free_acked-Keeps : (md : MetaData) → Keeps (IsShort n) (free_acked md)
  unfolding free_acked free_copy
  free_acked-Keeps md =
      Gives-if (md.mr_addr == 0) _ _ (λ _. Keeps-pure tt)
        λ _. record { at = λ s h. go (without_region md.mr_addr md.msg_addr s.exported) s h }
    where
      go :
          (rs : Option (List Region)) (s : Sock) → IsShort n s → Ends (IsShort n) (export_only rs s)
      go none s h = tt
      go (some rs) s h = record { short = h.short; free = h.free }

  handle_ack-Keeps : (wc : Wc) → Keeps (IsShort n) (handle_ack wc)
  unfolding handle_ack
  handle_ack-Keeps wc =
      Gives-bind (modify _) _ (Takes-modify _ (λ s h. record { short = h.short; free = h.free }))
        λ _. Gives-bind (free_acked wc.md_buffer) _ (free_acked-Keeps wc.md_buffer) λ _.
          Gives-bind (modify _) _
            (Takes-modify _ (λ s h. record { short = h.short; free = h.free }))
            λ _.
              Gives-bind (post_recv wc.rinfo) _ (Keeps-post_recv IsShort-IsStable wc.rinfo)
                λ _. Keeps-pure _

  pop_wc-Keeps : Keeps (IsShort n) pop_wc
  unfolding pop_wc
  pop_wc-Keeps = record { at = λ s h. go s.wr_queue s h }
    where
      go : (wcs : List Wc) (s : Sock) → IsShort n s → Ends (IsShort n) (take_wc wcs s)
      go [] s h = h
      go (wc ∷ wcs) s h = record { short = h.short; free = h.free }

  push_message-Keeps : (m : AMessage) → Keeps (IsShort n) (push_message m)
  unfolding push_message
  push_message-Keeps m = Takes-modify _ λ s h. record { short = h.short; free = h.free }

  resolve-Keeps : Keeps (IsShort n) resolve_wr_queue
  resolve-Keeps = Keeps-resolve IsShort-IsStable handle_ack-Keeps pop_wc-Keeps push_message-Keeps

-- What a round of the loop leaves to do.
abbrev resolved_by : (ℤ → M (Option ℤ)) → ℤ → M (Option ℤ)
resolved_by again polled =
    if eqb_ℤ polled (negsuc 0) then pure none else (resolve_wr_queue >>= again)

same_resolved :
    (n : ℕ) (again again' : ℤ → M (Option ℤ)) (polled : ℤ) (s : Sock)
    → ((f : ℤ) (s' : Sock) → IsShort n s' → again f s' ≡ again' f s')
    → IsShort n s
    → resolved_by again polled s ≡ resolved_by again' polled s
unfolding ◌>>=◌
same_resolved n again again' polled s ih h = go (eqb_ℤ polled (negsuc 0))
  where
    go :
        (b : Bool)
        → (if b then pure none else (resolve_wr_queue >>= again)) s
          ≡ (if b then pure none else (resolve_wr_queue >>= again')) s
    go true = refl
    go false =
        agreeing (resolve_wr_queue s) _ _
          (finishes_map (resolve_wr_queue s) ((((resolve-Keeps n))).at s h) ih)

wait_message-more :
    (n m : ℕ) (flag : ℤ) (s : Sock)
    → n ≤ m
    → IsShort n s
    → wait_message n flag s ≡ wait_message m flag s
unfolding wait_message ◌>>=◌
wait_message-more zero m flag s le h = absurd (omega (arith, h.short))
wait_message-more (suc n) zero flag s le h = absurd (omega (arith, le))
wait_message-more (suc n) (suc m) flag s le h = go _ _ _ (eqb_ℤ flag (pos 1)) (
    agreeing (poll_wc s) _ _ (
      finishes_map (poll_wc s) ((poll_wc-shortens n).at s h) λ (polled, wc) s' h'.
        same_resolved n (wait_message n) (wait_message m) polled s'
          (λ f s'' h''. wait_message-more n m f s'' (omega (arith, le)) h'') h'))
  where
    go :
        (k k' l : M (Option ℤ)) (b : Bool)
        → k s ≡ k' s
        → (if b then k else l) s ≡ (if b then k' else l) s
    go k k' l true e = e
    go k k' l false e = refl

pub wait_message-enough :
    (s : Sock) (fuel : ℕ) (flag : ℤ)
    → s.self_locked ≡ false
    → rounds s ≤ fuel
    → wait_message fuel flag s ≡ wait_message (rounds s) flag s
wait_message-enough s fuel flag free le =
    sym (wait_message-more (rounds s) fuel flag s le (record { short = omega arith; free = free }))

-- The body of while (flag == 1) of recv_.
abbrev pub wait_polled : ℤ → M (Step ℤ (Option ℤ))
wait_polled polled =
    if eqb_ℤ polled (negsuc 0)
    then pure (leave none)
    else (resolve_wr_queue >>= λ flag. pure (go_on flag))

abbrev pub wait_body : ℤ → M (Step ℤ (Option ℤ))
wait_body flag =
    if eqb_ℤ flag (pos 1)
    then (poll_wc >>= λ (polled, _). wait_polled polled)
    else pure (leave (some flag))

wait_polled-Follows :
    (n : ℕ) (polled : ℤ) (s : Sock)
    → ((f : ℤ) (s' : Sock) → IsShort n s' → Run wait_body f s' (wait_message n f s'))
    → IsShort n s
    → Follows wait_body (wait_polled polled s) (resolved_by (wait_message n) polled s)
unfolding ◌>>=◌ pure
wait_polled-Follows n polled s ih h = go (eqb_ℤ polled (negsuc 0))
  where
    go :
        (b : Bool)
        → Follows wait_body
            ((if b then pure (leave none) else (resolve_wr_queue >>= λ flag. pure (go_on flag))) s)
            ((if b then pure none else (resolve_wr_queue >>= wait_message n)) s)
    go true = refl
    go false =
        Follows-then wait_body (resolve_wr_queue s) _ _
          (finishes_map (resolve_wr_queue s) ((resolve-Keeps n).at s h) ih)

pub wait_message-Run :
    (n : ℕ) (flag : ℤ) (s : Sock) → IsShort n s → Run wait_body flag s (wait_message n flag s)
unfolding wait_message ◌>>=◌ pure
wait_message-Run zero flag s h = absurd (omega (arith, h.short))
wait_message-Run (suc n) flag s h = Follows-Run wait_body flag s _ _ refl (
    go _ _ _ _ (eqb_ℤ flag (pos 1))
      (Follows-then wait_body (poll_wc s) _ _ (
        finishes_map (poll_wc s) ((poll_wc-shortens n).at s h)
          λ (polled, wc) s' h'. wait_polled-Follows n polled s' (wait_message-Run n) h'))
      refl)
  where
    go :
        (m m' : M (Step ℤ (Option ℤ))) (k k' : M (Option ℤ)) (b : Bool)
        → Follows wait_body (m s) (k s)
        → Follows wait_body (m' s) (k' s)
        → Follows wait_body ((if b then m else m') s) ((if b then k else k') s)
    go m m' k k' true f g = f
    go m m' k k' false f g = g
