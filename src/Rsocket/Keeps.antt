-- ===== src/Rsocket/Keeps.antt =====
-- What holds after a call on a socket, by a rule for each way to build a call.
use ffrdma.Common.{◌≡◌, refl, Bool, true, false, if◌then◌else◌}
use ffrdma.Rsocket.Machine.{
  Sock, Out, done, died, fault, blocked, M, pure, ◌>>=◌, stop, gets, modify, and_then,
}

-- The result and the state of a call that returns satisfy R.
abbrev pub Finishes : {A : Type 0} → (A → Sock → Type 0) → Out A → Type 0
Finishes R (done a s) = R a s
Finishes R died = Unit {0}
Finishes R fault = Unit {0}
Finishes R blocked = Unit {0}

-- From a state with P the call gives a result and a state with R.
pub record Gives {A : Type 0} (P : Sock → Type 0) (R : A → Sock → Type 0) (m : M A) : Type 0 where
  pub at : (s : Sock) → P s → Finishes R (m s)

-- The same of the state alone.
abbrev pub Ends : {A : Type 0} → (Sock → Type 0) → Out A → Type 0
Ends Q = Finishes (λ _. Q)

abbrev pub Takes : {A : Type 0} → (Sock → Type 0) → (Sock → Type 0) → M A → Type 0
Takes P Q = Gives P (λ _. Q)

abbrev pub Keeps : {A : Type 0} → (Sock → Type 0) → M A → Type 0
Keeps P = Takes P P

finishes_then :
    {A B : Type 0} {R : A → Sock → Type 0} (Q : B → Sock → Type 0) (o : Out A) (k : A → M B)
    → Finishes R o
    → ((a : A) → Gives (R a) Q (k a))
    → Finishes Q (and_then o k)
finishes_then Q (done a s) k h kk = (kk a).at s h
finishes_then Q died k h kk = tt
finishes_then Q fault k h kk = tt
finishes_then Q blocked k h kk = tt

module _ {P : Sock → Type 0} {A : Type 0} {R : A → Sock → Type 0} where
  pub Gives-bind :
      {B : Type 0} {Q : B → Sock → Type 0} (m : M A) (k : A → M B)
      → Gives P R m
      → ((a : A) → Gives (R a) Q (k a))
      → Gives P Q (m >>= k)
  unfolding ◌>>=◌
  Gives-bind {Q} m k gm gk = record { at = λ s h. finishes_then {R = R} Q (m s) k (gm.at s h) gk }

  pub Gives-pure : (a : A) → ((s : Sock) → P s → R a s) → Gives P R (pure a)
  unfolding pure
  Gives-pure a h = record { at = h }

  pub Gives-stop : (o : Out A) → Finishes R o → Gives P R (stop o)
  unfolding stop
  Gives-stop o f = record { at = λ s h. f }

  pub Gives-if :
      (b : Bool) (m n : M A)
      → (b ≡ true → Gives P R m)
      → (b ≡ false → Gives P R n)
      → Gives P R (if b then m else n)
  Gives-if true m n then_gives else_gives = then_gives refl
  Gives-if false m n then_gives else_gives = else_gives refl

  pub Gives-weaken :
      {Q : Sock → Type 0} {m : M A} → ((s : Sock) → P s → Q s) → Gives Q R m → Gives P R m
  Gives-weaken w g = record { at = λ s h. g.at s (w s h) }

-- A fact that does not depend on the state is taken out of the hypothesis.
pub Gives-given :
    {F : Type 0} {P : Sock → Type 0} {A : Type 0} {R : A → Sock → Type 0} {m : M A}
    → (F → Gives P R m)
    → Gives (λ s. F × P s) R m
Gives-given g = record { at = λ s (f, h). (g f).at s h }

-- Nothing is claimed of any call.
pub Gives-nothing : {P : Sock → Type 0} {A : Type 0} (m : M A) → Gives P (λ _ _. Unit {0}) m
Gives-nothing {A} m = record { at = λ s h. go (m s) }
  where
    go : (o : Out A) → Finishes (λ _ _. Unit {0}) o
    go (done a s) = tt
    go died = tt
    go fault = tt
    go blocked = tt

pub Takes-modify :
    {P Q : Sock → Type 0} (f : Sock → Sock) → ((s : Sock) → P s → Q (f s)) → Takes P Q (modify f)
unfolding modify
Takes-modify f h = record { at = h }

module _ {P : Sock → Type 0} {A : Type 0} where
  pub Keeps-pure : (a : A) → Keeps P (pure a)
  Keeps-pure a = Gives-pure a (λ s h. h)

  pub Keeps-fault : Keeps P (stop {A = A} fault)
  Keeps-fault = Gives-stop fault tt

  pub Keeps-blocked : Keeps P (stop {A = A} blocked)
  Keeps-blocked = Gives-stop blocked tt

  -- Reading the state changes nothing.
  pub Keeps-gets : (f : Sock → A) → Keeps P (gets f)
  unfolding gets
  Keeps-gets f = record { at = λ s h. h }
