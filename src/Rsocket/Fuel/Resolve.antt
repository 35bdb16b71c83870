-- ===== src/Rsocket/Fuel/Resolve.antt =====
-- The loop of resolve_wr_queue of rsocket/src/poll_wc.cpp has all the fuel it needs.
use ffrdma.Rsocket.Stable.Resolve.{Keeps-handle}
use ffrdma.Rsocket.Fuel.{agreeing, finishes_map}
use ffrdma.Common.{
  ℕ, zero, suc, ◌+◌, ◌<◌, ◌≤◌, ◌≡◌, refl, sym, ap, Bool, true, false, Option, none, some, List, [],
  ◌∷◌, ℤ, pos, negsuc, length, arith, if◌then◌else◌, length-append, ◌==◌,
}
use ffrdma.Mpi.Machine.{AMessage}
use ffrdma.Rsocket.Machine.{M}
use ffrdma.Rsocket.Machine.{Wc, Sock, pure, ◌>>=◌, gets, modify, MetaData, Region}
use ffrdma.Rsocket.Keeps.{
  Keeps, Ends, Gives, Finishes, Gives-bind, Keeps-pure, Takes-modify, Gives-if,
}
use ffrdma.Rsocket.Poll.{post_recv}
use ffrdma.Rsocket.Stable.{arrivals, IsStable, Keeps-post_recv}
use ffrdma.Rsocket.Handle.{
  resolve_loop, resolve_rounds, resolve_wr_queue, resolve_stat, resolve_next, pop_wc, take_wc,
  push_message, recv_wc_handle, handle_ack, free_acked, free_copy, without_region, export_only,
  to_come, receives_of, error_wc,
}
use ffrdma.Rsocket.Fuel.Rounds.{Step, leave, go_on, Run, Follows, Follows-Run, Follows-then}

-- Fewer than n receive completions wait or are to come.
record IsPending (n : ℕ) (s : Sock) : Type 0 where
  fewer : length s.wr_queue + to_come s.events < n

length-arrivals : (e : Option (List Wc)) → length (arrivals e) ≡ receives_of e
length-arrivals none = refl
length-arrivals (some wcs) = refl

module _ (n : ℕ) where
  stable : IsStable (IsPending n)
  stable = record {
    checks = λ s l h. record { fewer = h.fewer };
    locks = λ s held rest e h. record { fewer = h.fewer };
    next = λ s n h. record { fewer = h.fewer };
    mrs = λ s n h. record { fewer = h.fewer };
    posted = λ s l h. record { fewer = h.fewer };
    ack_posted = λ s md h. record { fewer = h.fewer };
    event = λ s e rest eq h. record {
      fewer =
          omega (
            arith,
            h.fewer,
            ap to_come eq,
            length-arrivals e,
            length-append s.wr_queue (arrivals e),
          );
    };
    failed_event = λ s rest eq h. record { fewer = omega (arith, h.fewer, ap to_come eq) };
  }

  free_acked-Keeps : (md : MetaData) → Keeps (IsPending n) (free_acked md)
  unfolding free_acked free_copy
  free_acked-Keeps md =
      Gives-if (md.mr_addr == 0) _ _ (λ _. Keeps-pure tt)
        λ _. record { at = λ s h. go (without_region md.mr_addr md.msg_addr s.exported) s h }
    where
      go :
          (rs : Option (List Region)) (s : Sock)
          → IsPending n s
          → Ends (IsPending n) (export_only rs s)
      go none s h = tt
      go (some rs) s h = record { fewer = h.fewer }

  handle_ack-Keeps : (wc : Wc) → Keeps (IsPending n) (handle_ack wc)
  unfolding handle_ack
  handle_ack-Keeps wc =
      Gives-bind (modify _) _ (Takes-modify _ (λ s h. record { fewer = h.fewer })) λ _.
        Gives-bind (free_acked wc.md_buffer) _ (free_acked-Keeps wc.md_buffer) λ _.
          Gives-bind (modify _) _ (Takes-modify _ (λ s h. record { fewer = h.fewer })) λ _.
            Gives-bind (post_recv wc.rinfo) _ (Keeps-post_recv stable wc.rinfo) λ _. Keeps-pure _

  handle-Keeps : (wc : Wc) → Keeps (IsPending n) (recv_wc_handle wc)
  handle-Keeps = Keeps-handle stable handle_ack-Keeps

abbrev Left : ℕ → Option Wc → Sock → Type 0
Left n none s = Unit {0}
Left n (some wc) s = IsPending n s

pop_wc-Gives : (n : ℕ) → Gives (IsPending (suc n)) (Left n) pop_wc
unfolding pop_wc
pop_wc-Gives n = record { at = λ s h. go s.wr_queue s refl h }
  where
    go :
        (wcs : List Wc) (s : Sock)
        → s.wr_queue ≡ wcs
        → IsPending (suc n) s
        → Finishes (Left n) (take_wc wcs s)
    go [] s e h = tt
    go (wc ∷ wcs) s e h = record { fewer = omega (arith, h.fewer, ap length e) }

same_stat :
    (n m : ℕ) (flag : ℤ) (r : ℕ × Option AMessage) (s : Sock)
    → ((f : ℤ) (s' : Sock) → IsPending n s' → resolve_loop n f s' ≡ resolve_loop m f s')
    → IsPending n s
    → resolve_stat (resolve_loop n) flag r s ≡ resolve_stat (resolve_loop m) flag r s
unfolding resolve_stat push_message modify ◌>>=◌
same_stat n m flag (stat, none) s ih h = go (stat == error_wc)
  where
    go :
        (b : Bool)
        → (if b then pure (negsuc 0) else resolve_loop n flag) s
          ≡ (if b then pure (negsuc 0) else resolve_loop m flag) s
    go true = refl
    go false = ih flag s h
same_stat n m flag (stat, some msg) s ih h = ih (pos 0) _ (record { fewer = h.fewer })

same_next :
    (n m : ℕ) (flag : ℤ) (w : Option Wc) (s : Sock)
    → ((f : ℤ) (s' : Sock) → IsPending n s' → resolve_loop n f s' ≡ resolve_loop m f s')
    → Left n w s
    → resolve_next (resolve_loop n) flag w s ≡ resolve_next (resolve_loop m) flag w s
unfolding resolve_next ◌>>=◌
same_next n m flag none s ih h = refl
same_next n m flag (some wc) s ih h = agreeing (recv_wc_handle wc s) _ _ (
    finishes_map (recv_wc_handle wc s) ((((handle-Keeps n wc))).at s h)
      λ r s' h'. same_stat n m flag r s' ih h')

resolve_loop-more :
    (n m : ℕ) (flag : ℤ) (s : Sock)
    → n ≤ m
    → IsPending n s
    → resolve_loop n flag s ≡ resolve_loop m flag s
unfolding resolve_loop ◌>>=◌
resolve_loop-more zero m flag s le h = absurd (omega (arith, h.fewer))
resolve_loop-more (suc n) zero flag s le h = absurd (omega (arith, le))
resolve_loop-more (suc n) (suc m) flag s le h = agreeing (pop_wc s) _ _ (
    finishes_map (pop_wc s) ((pop_wc-Gives n).at s h) λ w s' h'.
      same_next n m flag w s' (λ f s'' h''. resolve_loop-more n m f s'' (omega (arith, le)) h'') h')

pub resolve-enough :
    (s : Sock) (fuel : ℕ)
    → resolve_rounds s ≤ fuel
    → resolve_loop fuel (pos 1) s ≡ resolve_wr_queue s
unfolding resolve_wr_queue gets ◌>>=◌
resolve-enough s fuel le =
    sym (resolve_loop-more (resolve_rounds s) fuel (pos 1) s le (record { fewer = omega arith }))

-- The body of the loop of resolve_wr_queue: what a completion's status and message lead to.
abbrev pub resolve_one : ℤ → ℕ × Option AMessage → M (Step ℤ ℤ)
resolve_one flag (stat, none) = pure (if stat == error_wc then leave (negsuc 0) else go_on flag)
resolve_one flag (stat, some m) = push_message m >>= λ _. pure (go_on (pos 0))

abbrev pub resolve_popped : ℤ → Option Wc → M (Step ℤ ℤ)
resolve_popped flag none = pure (leave flag)
resolve_popped flag (some wc) = recv_wc_handle wc >>= resolve_one flag

abbrev pub resolve_body : ℤ → M (Step ℤ ℤ)
resolve_body flag = pop_wc >>= resolve_popped flag

module _ (n : ℕ)
    (ih : (f : ℤ) (s : Sock) → IsPending n s → Run resolve_body f s (resolve_loop n f s)) where
  resolve_one-Follows :
      (flag : ℤ) (r : ℕ × Option AMessage) (s : Sock)
      → IsPending n s
      → Follows resolve_body (resolve_one flag r s) (resolve_stat (resolve_loop n) flag r s)
  unfolding resolve_stat push_message modify ◌>>=◌ pure
  resolve_one-Follows flag (stat, none) s h = go (stat == error_wc)
    where
      go :
          (b : Bool)
          → Follows resolve_body
              (pure (if b then leave (negsuc 0) else go_on flag) s)
              ((if b then pure (negsuc 0) else resolve_loop n flag) s)
      go true = refl
      go false = ih flag s h
  resolve_one-Follows flag (stat, some msg) s h = ih (pos 0) _ (record { fewer = h.fewer })

  resolve_popped-Follows :
      (flag : ℤ) (w : Option Wc) (s : Sock)
      → Left n w s
      → Follows resolve_body (resolve_popped flag w s) (resolve_next (resolve_loop n) flag w s)
  unfolding resolve_next ◌>>=◌ pure
  resolve_popped-Follows flag none s h = refl
  resolve_popped-Follows flag (some wc) s h = Follows-then resolve_body (recv_wc_handle wc s) _ _ (
      finishes_map (recv_wc_handle wc s) ((handle-Keeps n wc).at s h)
        λ r s' h'. resolve_one-Follows flag r s' h')

resolve_loop-Run :
    (n : ℕ) (flag : ℤ) (s : Sock) → IsPending n s → Run resolve_body flag s (resolve_loop n flag s)
unfolding resolve_loop ◌>>=◌ pure
resolve_loop-Run zero flag s h = absurd (omega (arith, h.fewer))
resolve_loop-Run (suc n) flag s h = Follows-Run resolve_body flag s _ _ refl (
    Follows-then resolve_body (pop_wc s) _ _ (
      finishes_map (pop_wc s) ((pop_wc-Gives n).at s h)
        λ w s' h'. resolve_popped-Follows n (resolve_loop-Run n) flag w s' h'))

pub resolve-Run : (s : Sock) → Run resolve_body (pos 1) s (resolve_wr_queue s)
unfolding resolve_wr_queue gets ◌>>=◌
resolve-Run s = resolve_loop-Run (resolve_rounds s) (pos 1) s (record { fewer = omega arith })
