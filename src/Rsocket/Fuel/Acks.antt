-- ===== src/Rsocket/Fuel/Acks.antt =====
-- The loop that sends an acknowledgement in recv_wc_handle of rsocket/src/poll_wc.cpp has all the
-- fuel it needs.
use ffrdma.Rsocket.Handle.{send_ack, ack_rounds, as_ack, succeeded}
use ffrdma.Rsocket.Machine.{M, MetaData, checked, tried, test, try_close_lock, done, blocked}
use ffrdma.Rsocket.Fuel.{agreeing, finishes_map}
use ffrdma.Common.{
  [], ◌∷◌, ◌++◌, List, Bool, true, false, ℕ, zero, suc, ◌<◌, ◌≤◌, ◌≡◌, refl, sym, ap, Option, none,
  some, ℤ, pos, negsuc, length, arith, if◌then◌else◌, eqb_ℤ,
}
use ffrdma.Rsocket.Machine.{Wc, Sock, pure, ◌>>=◌, gets, modify}
use ffrdma.Rsocket.Keeps.{
  Gives-if, Gives-stop, Gives-pure, Gives-bind, Keeps, Ends, Gives, Finishes, Keeps-gets,
}
use ffrdma.Rsocket.Poll.{
  post_send, get_cq_event, drain_event, next_event, push_wcs, flag_of, last_send, receives,
  poll_until_sent, wait_sent, poll_wc, rounds,
}
use ffrdma.Rsocket.Fuel.Rounds.{Step, leave, go_on, Run, Follows, Follows-Run, Follows-then}

-- Fewer than n events are to come.
record IsEventful (n : ℕ) (s : Sock) : Type 0 where
  few : length s.events < n

abbrev Polled : ℕ → ℤ × Option Wc → Sock → Type 0
Polled n (flag, wc) = IsEventful (if eqb_ℤ flag (pos 0) then n else suc n)

IsEventful-test : (n : ℕ) → Keeps (IsEventful n) test
unfolding test
IsEventful-test n = record { at = λ s h. go s.checks s h }
  where
    go : (cs : List Bool) (s : Sock) → IsEventful n s → Ends (IsEventful n) (checked cs s)
    go [] s h = h
    go (true ∷ rest) s h = tt
    go (false ∷ rest) s h = record { few = h.few }

IsEventful-lock : (n : ℕ) → Keeps (IsEventful n) try_close_lock
unfolding try_close_lock
IsEventful-lock n = record { at = λ s h. go s.self_locked s h }
  where
    tried_few : (ls : List Bool) (s : Sock) → IsEventful n s → Ends (IsEventful n) (tried ls s)
    tried_few [] s h = h
    tried_few (l ∷ rest) s h = record { few = h.few }

    go :
        (b : Bool) (s : Sock)
        → IsEventful n s
        → Ends (IsEventful n) (if b then done true s else tried s.locks s)
    go true s h = h
    go false s h = tried_few s.locks s h

more_events : (n : ℕ) (b : Bool) (s : Sock) → IsEventful n s → IsEventful (if b then n else suc n) s
more_events n true s h = h
more_events n false s h = record { few = omega (arith, h.few) }

poll_wc-uses : (n : ℕ) → Gives (IsEventful (suc n)) (Polled n) poll_wc
unfolding poll_wc get_cq_event drain_event push_wcs modify
poll_wc-uses n = Gives-bind try_close_lock _ (((IsEventful-lock (suc n)))) λ closing.
    Gives-if closing _ _ (λ _. Gives-pure (negsuc 0, none) (λ s h. h))
      λ _. Gives-bind get_cq_event _ (record { at = λ s h. go s.events s refl h }) drained
  where
    go :
        (es : List (Option (List Wc))) (s : Sock)
        → s.events ≡ es
        → IsEventful (suc n) s
        → Finishes (λ _. IsEventful n) (next_event es s)
    go [] s e h = tt
    go (v ∷ rest) s e h = record { few = omega (arith, h.few, ap length e) }

    drained : (v : Option (List Wc)) → Gives (IsEventful n) (Polled n) (drain_event v)
    drained none = Gives-pure (negsuc 0, none) (more_events n false)
    drained (some wcs) =
        Gives-bind (push_wcs (receives wcs)) _ (record { at = λ s h. record { few = h.few } })
          λ _. Gives-bind test _ (((IsEventful-test n))) λ _.
            Gives-pure (flag_of (last_send wcs none), last_send wcs none)
              (more_events n (eqb_ℤ (flag_of (last_send wcs none)) (pos 0)))

poll_until_sent-uses :
    (n fuel : ℕ) → Gives (IsEventful (suc n)) (λ _. IsEventful n) (poll_until_sent fuel)
unfolding poll_until_sent
poll_until_sent-uses n zero = Gives-stop blocked tt
poll_until_sent-uses n (suc fuel) =
    Gives-bind poll_wc _ (poll_wc-uses n)
      λ (flag, wc). go wc (eqb_ℤ flag (pos 0)) (poll_until_sent-uses n fuel)
  where
    go :
        (wc : Option Wc) (b : Bool)
        → Gives (IsEventful (suc n)) (λ _. IsEventful n) (poll_until_sent fuel)
        → Gives
            (IsEventful (if b then n else suc n))
            (λ _. IsEventful n)
            (if b then pure wc else poll_until_sent fuel)
    go wc true ih = Gives-pure wc (λ s h. h)
    go wc false ih = ih

wait_sent-uses : (n : ℕ) → Gives (IsEventful (suc n)) (λ _. IsEventful n) wait_sent
unfolding wait_sent
wait_sent-uses n = Gives-bind (gets rounds) _ (((Keeps-gets rounds))) (poll_until_sent-uses n)

same_acks :
    (n m : ℕ) (md : MetaData) (b : Bool) (s : Sock)
    → send_ack n md s ≡ send_ack m md s
    → (if b then pure tt else send_ack n md) s ≡ (if b then pure tt else send_ack m md) s
same_acks n m md true s e = refl
same_acks n m md false s e = e

send_ack-more :
    (n m : ℕ) (md : MetaData) (s : Sock)
    → n ≤ m
    → IsEventful n s
    → send_ack n md s ≡ send_ack m md s
unfolding send_ack post_send modify ◌>>=◌
send_ack-more zero m md s le h = absurd (omega (arith, h.few))
send_ack-more (suc n) zero md s le h = absurd (omega (arith, le))
send_ack-more (suc n) (suc m) md s le h = agreeing (test s) _ _ (
    finishes_map (test s) ((((IsEventful-test (suc n)))).at s h) λ _ s' h'.
      let sent : Sock = record s' { out = s'.out ++ (as_ack md ∷ []) } in
      agreeing (wait_sent sent) _ _ (
        finishes_map (wait_sent sent) ((wait_sent-uses n).at sent (record { few = h'.few }))
          λ wc s'' h''.
            same_acks n m md (succeeded wc) s'' (send_ack-more n m md s'' (omega (arith, le)) h'')))

pub send_ack-enough :
    (s : Sock) (fuel : ℕ) (md : MetaData)
    → ack_rounds s ≤ fuel
    → send_ack fuel md s ≡ send_ack (ack_rounds s) md s
send_ack-enough s fuel md le =
    sym (send_ack-more (ack_rounds s) fuel md s le (record { few = omega arith }))

-- The body of the loop that sends an acknowledgement.
abbrev pub ack_body : MetaData → Unit {0} → M (Step (Unit {0}) (Unit {0}))
ack_body md _ = test >>= λ _. post_send (as_ack md) >>= λ _.
    wait_sent >>= λ wc. pure (if succeeded wc then leave tt else go_on tt)

send_ack-Run :
    (n : ℕ) (md : MetaData) (s : Sock) → IsEventful n s → Run (ack_body md) tt s (send_ack n md s)
unfolding send_ack post_send modify ◌>>=◌ pure
send_ack-Run zero md s h = absurd (omega (arith, h.few))
send_ack-Run (suc n) md s h = Follows-Run (ack_body md) tt s _ _ refl (
    Follows-then (ack_body md) (test s) _ _ (
      finishes_map (test s) ((IsEventful-test (suc n)).at s h) λ _ s' h'.
        let sent : Sock = record s' { out = s'.out ++ (as_ack md ∷ []) } in
        Follows-then (ack_body md) (wait_sent sent) _ _ (
          finishes_map (wait_sent sent) ((wait_sent-uses n).at sent (record { few = h'.few }))
            λ wc s'' h''. acked (succeeded wc) s'' (send_ack-Run n md s'' h''))))
  where
    acked :
        (b : Bool) (s'' : Sock)
        → Run (ack_body md) tt s'' (send_ack n md s'')
        → Follows
            (ack_body md)
            (pure (if b then leave tt else go_on tt) s'')
            ((if b then pure tt else send_ack n md) s'')
    acked true s'' ih = refl
    acked false s'' ih = ih

pub send_ack_ends :
    (s : Sock) (md : MetaData) → Run (ack_body md) tt s (send_ack (ack_rounds s) md s)
send_ack_ends s md = send_ack-Run (ack_rounds s) md s (record { few = omega arith })
