-- ===== src/Mpi/Fan.antt =====
-- The schedule of the operations with a root: the root serves the other ranks in ascending order.
use ffrdma.Common.{
  ℕ, zero, suc, ◌<◌, ◌≤◌, ◌≡◌, ◌≢◌, true, Option, some, List, [], ◌∷◌, ◌++◌, append_assoc,
  append-nil, arith, ◌==◌, if◌then◌else◌, ne→==,
}
use ffrdma.Mpi.Machine.{Bytes, pop_inbox}

-- What goes out to the ranks below k, but for `rank` itself.
abbrev pub fan_out : (ℕ → ℕ × Bytes) → ℕ → ℕ → List (ℕ × Bytes)
fan_out f rank zero = []
fan_out f rank (suc k) = fan_out f rank k ++ (if k == rank then [] else f k ∷ [])

module _ (f : ℕ → ℕ × Bytes) (rank k : ℕ) (sent : List (ℕ × Bytes)) where
  pub fan_out_skip : k ≡ rank → sent ++ fan_out f rank k ≡ sent ++ fan_out f rank (suc k)
  fan_out_skip e = rw (hit, append-nil)
    where
      hit : (k == rank) ≡ true
      hit = ground arith

  pub fan_out_step :
      k ≢ rank → (sent ++ fan_out f rank k) ++ (f k ∷ []) ≡ sent ++ fan_out f rank (suc k)
  fan_out_step ne = rw (ne→== k rank ne) (append_assoc sent (fan_out f rank k) (f k ∷ []))

-- What is still to come from the ranks not below k.
abbrev pub Arriving :
    (size rank : ℕ) (peer : ℕ → ℕ) (block : ℕ → Bytes) (rest : ℕ → List (Option Bytes)) (k : ℕ)
    → (ℕ → List (Option Bytes))
    → Type 0
Arriving size rank peer block rest k inbox =
    (q : ℕ) → k ≤ q → q < size → q ≢ rank → inbox (peer q) ≡ some (block q) ∷ rest q

pub Arriving-pop :
    (size rank : ℕ) (peer : ℕ → ℕ) (block : ℕ → Bytes) (rest : ℕ → List (Option Bytes)) (k : ℕ)
    (inbox : ℕ → List (Option Bytes))
    → ((q r : ℕ) → q < size → r < size → peer q ≡ peer r → q ≡ r)
    → k < size
    → Arriving size rank peer block rest k inbox
    → Arriving size rank peer block rest (suc k) (pop_inbox inbox (peer k) (rest k))
Arriving-pop size rank peer block rest k inbox injective lt arriving q le q_lt ne =
    let k≢q : q ≢ k = omega arith in
    rw (ne→== (peer q) (peer k) (λ e. k≢q (injective q k q_lt lt e)))
      (arriving q (omega arith) q_lt ne)
