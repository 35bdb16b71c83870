-- ===== src/Rsocket/Fuel/Rounds.antt =====
-- A loop of rsocket/src/poll_wc.cpp or rsocket/src/rdma_socket.cpp with no fuel: its body decides
-- each time whether it is left or goes on, and a run of it is finite.
use ffrdma.Common.{◌≡◌, refl, subst}
use ffrdma.Rsocket.Machine.{Sock, Out, done, died, fault, blocked, M, and_then}
use ffrdma.Rsocket.Keeps.{Finishes}

-- What a body decides: to leave the loop with a result, or to go on.
pub data Step (A B : Type 0) : Type 0 where
  leave : B → Step A B
  go_on : A → Step A B

-- The loop, run from a state, comes to this after finitely many bodies: it is left, or a body ends the
-- program, is undefined, or waits for an event that does not come.
pub data Run {A B : Type 0} (body : A → M (Step A B)) : A → Sock → Out B → Type 0 where
  left_with :
      (a : A) (s : Sock) (b : B) (t : Sock) → body a s ≡ done (leave b) t → Run body a s (done b t)
  goes_on :
      (a : A) (s : Sock) (a' : A) (t : Sock) (o : Out B)
      → body a s ≡ done (go_on a') t
      → Run body a' t o
      → Run body a s o
  dies : (a : A) (s : Sock) → body a s ≡ died → Run body a s died
  faults : (a : A) (s : Sock) → body a s ≡ fault → Run body a s fault
  waits : (a : A) (s : Sock) → body a s ≡ blocked → Run body a s blocked

-- What the loop comes to once a body has given its result.
abbrev pub Follows : {A B : Type 0} → (A → M (Step A B)) → Out (Step A B) → Out B → Type 0
Follows body (done (leave b) t) o = done b t ≡ o
Follows body (done (go_on a) t) o = Run body a t o
Follows body died o = died ≡ o
Follows body fault o = fault ≡ o
Follows body blocked o = blocked ≡ o

module _ {A B : Type 0} (body : A → M (Step A B)) where
  pub Follows-Run :
      (a : A) (s : Sock) (r : Out (Step A B)) (o : Out B)
      → body a s ≡ r
      → Follows body r o
      → Run body a s o
  Follows-Run a s (done (leave b) t) o e f = subst (Run body a s) f (left_with a s b t e)
  Follows-Run a s (done (go_on a') t) o e f = goes_on a s a' t o e f
  Follows-Run a s died o e f = subst (Run body a s) f (dies a s e)
  Follows-Run a s fault o e f = subst (Run body a s) f (faults a s e)
  Follows-Run a s blocked o e f = subst (Run body a s) f (waits a s e)

  pub Follows-then :
      {C : Type 0} (o : Out C) (step : C → M (Step A B)) (k : C → M B)
      → Finishes (λ c t. Follows body (step c t) (k c t)) o
      → Follows body (and_then o step) (and_then o k)
  Follows-then (done c t) step k h = h
  Follows-then died step k h = refl
  Follows-then fault step k h = refl
  Follows-then blocked step k h = refl
