-- ===== src/Mpi/Loop.antt =====
-- Total correctness of a run, and the counted loops of src/mpi.cc with their rule.
use ffrdma.Common.{ℕ, zero, suc, ◌+◌, ◌≤◌, ◌<◌, ◌≡◌, refl, true, false, arith, ℤ, pos, eqb_ℤ, subst}
use ffrdma.Mpi.Machine.{Proc, Run, ok, M, pure, and_then, ◌>>=◌}

-- for (int i = ...; ...) over the rounds left; a body that returns a code other than 0 leaves the
-- function with it.
unfoldable pub for_each : {A : Type 0} → ℕ → ℕ → (ℕ → A → M (ℤ × A)) → A → M (ℤ × A)
for_each zero i body a = pure (pos 0, a)
for_each (suc k) i body a = do
  (code, a') ← body i a
  elim (eqb_ℤ code (pos 0)) [ true ↦ for_each k (suc i) body a' | false ↦ pure (code, a') ]

-- The run ends, with no fault, and its result and state satisfy `Q`.
pub data Returns {A : Type 0} (Q : A → Proc → Type 0) : Run A → Type 0 where
  returns : {a : A} {s : Proc} → Q a s → Returns Q (ok a s)

module _ {A : Type 0} {P : A → Proc → Type 0} where
  pub bind :
      {B : Type 0} {Q : B → Proc → Type 0} {r : Run A} {k : A → M B}
      → Returns P r
      → ((a : A) (s : Proc) → P a s → Returns Q (k a s))
      → Returns Q (and_then r k)
  bind (returns p) next = next _ _ p

-- The loop ended, with code 0 and the invariant.
abbrev pub Finished : {A : Type 0} → (A → Proc → Type 0) → ℤ × A → Proc → Type 0
Finished P (code, a) s = (code ≡ pos 0) × P a s

-- The rule of the counted loop: an invariant that every round keeps holds at the end.
pub for_each_rule :
    {A : Type 0} (P : ℕ → A → Proc → Type 0) (body : ℕ → A → M (ℤ × A)) (k i : ℕ)
    → ((j : ℕ) (a : A) (s : Proc)
        → i ≤ j
        → j < i + k
        → P j a s
        → Returns (Finished (P (suc j))) (body j a s))
    → (a : A) (s : Proc) → P i a s
    → Returns (Finished (P (i + k))) (for_each k i body a s)
unfolding for_each
for_each_rule P body zero i round a s p =
    let e : i ≡ i + 0 = omega arith in returns (refl, subst (λ t. P t a s) e p)
for_each_rule P body (suc k) i round a s p =
    bind (round i a s (omega arith) (omega arith) p) λ (code, a') s' (done, p').
      let e : suc i + k ≡ i + suc k = omega arith in
      rw done (
        subst (λ t. Returns (Finished (P t)) (for_each k (suc i) body a' s')) e
          (for_each_rule P body k (suc i) (λ j b t lo hi. round j b t (omega arith) (omega arith))
            a' s' p'))
