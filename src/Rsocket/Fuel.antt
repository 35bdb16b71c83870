-- ===== src/Rsocket/Fuel.antt =====
-- The loops of rsocket/src/poll_wc.cpp have all the fuel they need: the loop on poll_wc.
pub mod Rounds
pub mod Resolve
pub mod Waits
pub mod Acks
pub mod Loops
use ffrdma.Common.{
  ℕ, zero, suc, ◌+◌, ◌<◌, ◌≤◌, ◌≡◌, refl, sym, ap, subst, ◌∙◌, Bool, true, false, Option, none,
  some, List, [], ◌∷◌, ◌++◌, ℤ, pos, negsuc, length, arith, if◌then◌else◌, eqb_ℤ, length-append,
  ◌==◌,
}
use ffrdma.Mpi.Machine.{AMessage}
use ffrdma.Rsocket.Machine.{
  checked, Wc, Sock, Out, done, died, fault, blocked, M, pure, ◌>>=◌, and_then, gets, modify, test,
  try_close_lock, tried, MetaData, Region,
}
use ffrdma.Rsocket.Keeps.{
  Keeps, Ends, Gives, Finishes, Gives-bind, Gives-pure, Gives-stop, Gives-if, Gives-weaken,
  Keeps-pure, Takes-modify, Keeps-fault, Keeps-gets, Keeps-blocked,
}
use ffrdma.Rsocket.Poll.{
  poll_wc, get_cq_event, drain_event, next_event, poll_until_sent, wait_sent, rounds, push_wcs,
  flag_of, last_send, receives, post_recv,
}
use ffrdma.Rsocket.Stable.{
  arrivals, IsStable, Keeps-test, Keeps-fetch, Keeps-acknowledge, Keeps-post_recv,
}
use ffrdma.Rsocket.Handle.{
  resolve_loop, resolve_rounds, resolve_wr_queue, resolve_stat, resolve_next, pop_wc, take_wc,
  push_message, recv_wc_handle, dispatch, handle_normal, handle_ack, free_acked, free_copy,
  without_region, export_only, fetch, acknowledge, no_message, to_come, receives_of, error_wc,
  ack_solved,
}
use ffrdma.Rsocket.Fuel.Rounds.{Step, leave, go_on, Run, Follows, Follows-Run, Follows-then}

-- Two continuations that agree on what a call returns.
pub agreeing :
    {A B : Type 0} (o : Out A) (k k' : A → M B)
    → Finishes (λ a s. k a s ≡ k' a s) o
    → and_then o k ≡ and_then o k'
agreeing (done a s) k k' h = h
agreeing died k k' h = refl
agreeing fault k k' h = refl
agreeing blocked k k' h = refl

pub finishes_map :
    {A : Type 0} {R Q : A → Sock → Type 0} (o : Out A)
    → Finishes R o
    → ((a : A) (s : Sock) → R a s → Q a s)
    → Finishes Q o
finishes_map (done a s) h w = w a s h
finishes_map died h w = tt
finishes_map fault h w = tt
finishes_map blocked h w = tt

-- Fewer than n trylocks and events are to come, and this thread does not hold close_lock.
pub record IsShort (n : ℕ) (s : Sock) : Type 0 where
  pub short : length s.locks + length s.events < n
  pub free : s.self_locked ≡ false

lock-shortens :
    (n : ℕ) → Gives (IsShort (suc n)) (λ b. IsShort (if b then n else suc n)) try_close_lock
unfolding try_close_lock
lock-shortens n = record { at = λ s h. unlocked s.self_locked s h.free h }
  where
    go :
        (ls : List Bool) (s : Sock)
        → s.locks ≡ ls
        → IsShort (suc n) s
        → Finishes (λ b. IsShort (if b then n else suc n)) (tried ls s)
    go [] s e h = h
    go (true ∷ rest) s e h = record { short = omega (arith, h.short, ap length e); free = h.free }
    go (false ∷ rest) s e h = record { short = omega (arith, h.short, ap length e); free = h.free }

    unlocked :
        (b : Bool) (s : Sock)
        → b ≡ false
        → IsShort (suc n) s
        → Finishes
            (λ b. IsShort (if b then n else suc n))
            (if b then done true s else tried s.locks s)
    unlocked true s e h = cc e
    unlocked false s e h = go s.locks s refl h

pub IsShort-test : (n : ℕ) → Keeps (IsShort n) test
unfolding test
IsShort-test n = record { at = λ s h. go s.checks s h }
  where
    go : (cs : List Bool) (s : Sock) → IsShort n s → Ends (IsShort n) (checked cs s)
    go [] s h = h
    go (true ∷ rest) s h = tt
    go (false ∷ rest) s h = record { short = h.short; free = h.free }

event-shortens : (n : ℕ) → Gives (IsShort (suc n)) (λ _. IsShort n) (get_cq_event >>= drain_event)
unfolding get_cq_event drain_event push_wcs modify
event-shortens n = Gives-bind get_cq_event _ (record { at = λ s h. go s.events s refl h }) drained
  where
    go :
        (es : List (Option (List Wc))) (s : Sock)
        → s.events ≡ es
        → IsShort (suc n) s
        → Finishes (λ _. IsShort n) (next_event es s)
    go [] s e h = tt
    go (v ∷ rest) s e h = record { short = omega (arith, h.short, ap length e); free = h.free }

    drained : (v : Option (List Wc)) → Gives (IsShort n) (λ _. IsShort n) (drain_event v)
    drained none = Gives-pure (negsuc 0, none) (λ s h. h)
    drained (some wcs) =
        Gives-bind (push_wcs (receives wcs)) _
          (record { at = λ s h. record { short = h.short; free = h.free } })
          λ _. Gives-bind test _ (((IsShort-test n))) λ _. Gives-pure _ (λ s h. h)

pub poll_wc-shortens : (n : ℕ) → Gives (IsShort (suc n)) (λ _. IsShort n) poll_wc
unfolding poll_wc
poll_wc-shortens n = Gives-bind try_close_lock _ (lock-shortens n) λ closing. go closing
  where
    go :
        (b : Bool)
        → Gives
            (IsShort (if b then n else suc n))
            (λ _. IsShort n)
            (if b then pure (negsuc 0, none) else (get_cq_event >>= drain_event))
    go true = Gives-pure (negsuc 0, none) (λ s h. h)
    go false = event-shortens n

same_polls :
    (n m : ℕ) (b : Bool) (wc : Option Wc) (s : Sock)
    → poll_until_sent n s ≡ poll_until_sent m s
    → (if b then pure wc else poll_until_sent n) s ≡ (if b then pure wc else poll_until_sent m) s
same_polls n m true wc s e = refl
same_polls n m false wc s e = e

poll_until_sent-more :
    (n m : ℕ) (s : Sock) → n ≤ m → IsShort n s → poll_until_sent n s ≡ poll_until_sent m s
unfolding poll_until_sent ◌>>=◌
poll_until_sent-more zero m s le h = absurd (omega (arith, h.short))
poll_until_sent-more (suc n) zero s le h = absurd (omega (arith, le))
poll_until_sent-more (suc n) (suc m) s le h = agreeing (poll_wc s) _ _ (
    finishes_map (poll_wc s) ((poll_wc-shortens n).at s h) λ (flag, wc) s' h'.
      same_polls n m (eqb_ℤ flag (pos 0)) wc s'
        (poll_until_sent-more n m s' (omega (arith, le)) h'))

pub wait_sent-enough :
    (s : Sock) (fuel : ℕ)
    → s.self_locked ≡ false
    → rounds s ≤ fuel
    → poll_until_sent fuel s ≡ wait_sent s
unfolding wait_sent gets ◌>>=◌
wait_sent-enough s fuel free le =
    sym (poll_until_sent-more (rounds s) fuel s le (record { short = omega arith; free = free }))

-- The body of while(poll_wc(socket_, &wc)).
abbrev pub poll_body : Unit {0} → M (Step (Unit {0}) (Option Wc))
poll_body _ = poll_wc >>= λ (flag, wc). pure (if eqb_ℤ flag (pos 0) then leave wc else go_on tt)

poll_until_sent-Run : (n : ℕ) (s : Sock) → IsShort n s → Run poll_body tt s (poll_until_sent n s)
unfolding poll_until_sent ◌>>=◌ pure
poll_until_sent-Run zero s h = absurd (omega (arith, h.short))
poll_until_sent-Run (suc n) s h = Follows-Run poll_body tt s _ _ refl (
    Follows-then poll_body (poll_wc s) _ _ (
      finishes_map (poll_wc s) ((poll_wc-shortens n).at s h)
        λ (flag, wc) s' h'. polled (eqb_ℤ flag (pos 0)) wc s' (poll_until_sent-Run n s' h')))
  where
    polled :
        (b : Bool) (wc : Option Wc) (s' : Sock)
        → Run poll_body tt s' (poll_until_sent n s')
        → Follows poll_body
            (pure (if b then leave wc else go_on tt) s')
            ((if b then pure wc else poll_until_sent n) s')
    polled true wc s' ih = refl
    polled false wc s' ih = ih

pub wait_sent-Run : (s : Sock) → s.self_locked ≡ false → Run poll_body tt s (wait_sent s)
unfolding wait_sent gets ◌>>=◌
wait_sent-Run s free =
    poll_until_sent-Run (rounds s) s (record { short = omega arith; free = free })
