-- ===== src/Process/Retry.antt =====
-- connectToServer of src/process.cc: when it returns and when it gives up.
use ffrdma.Common.{
  inr, inl, Bool-cases, ℕ, suc, ◌+◌, ◌≤◌, ◌<◌, ◌≡◌, refl, List, [], ◌∷◌, ◌++◌, Option, map, length,
  pos, arith, false, leb_ℤ,
}
use ffrdma.Process.{
  Process, RetryPolicy, try_failed, conn_ok, conn_error, ConnStatus, connect_loop,
  connect_to_server, connected, found, gave_up, returned, threw, invalid_argument, left_over,
}

abbrev pub failures : List (Option ℕ) → List (Option ℕ × ConnStatus)
failures = map (λ s. (s, conn_error))

abbrev pub Attempts : Type 0
Attempts = List (Option ℕ × ConnStatus)

abbrev pub limited : ℕ → ℕ → RetryPolicy
limited n ms = record { policy = try_failed; retry_times = pos n; sleep_time = ms }

loop_finds :
    (n ms cnt : ℕ) (fs : List (Option ℕ)) (s : Option ℕ) (rest : Attempts)
    → cnt + length fs ≤ n
    → connect_loop (limited n ms) cnt (failures fs ++ ((s, conn_ok) ∷ rest)) ≡ found s rest
unfolding connect_loop
loop_finds n ms cnt [] s rest h = refl
loop_finds n ms cnt (f ∷ fs) s rest h =
    let go : leb_ℤ (pos n) (pos cnt) ≡ false = ground arith in
    rw go (loop_finds n ms (suc cnt) fs s rest (omega arith))

loop_gives_up :
    (n ms cnt : ℕ) (fs : List (Option ℕ)) (rest : Attempts)
    → cnt ≤ n
    → n < cnt + length fs
    → connect_loop (limited n ms) cnt (failures fs ++ rest) ≡ gave_up
unfolding connect_loop
loop_gives_up n ms cnt [] rest le h = absurd (omega arith)
loop_gives_up n ms cnt (f ∷ fs) rest le h = elim (Bool-cases (leb_ℤ (pos n) (pos cnt))) [
  | inl stop ↦ rw stop refl
  | inr go ↦ rw go (loop_gives_up n ms (suc cnt) fs rest (ground (arith, go)) (omega arith))
]

pub connect_to_server_finds :
    (n ms to : ℕ) (fs : List (Option ℕ)) (s : Option ℕ) (rest : Attempts) (p : Process)
    → p.connects to ≡ failures fs ++ ((s, conn_ok) ∷ rest)
    → length fs ≤ n
    → connect_to_server to (limited n ms) p
      ≡ returned s (record p { connects = left_over p.connects to rest })
unfolding connect_to_server connected
connect_to_server_finds n ms to fs s rest p e few =
    rw (e, loop_finds n ms 0 fs s rest (omega arith)) refl

-- With a limit of n retries, connectToServer returns the first socket that connects if at most n
-- attempts fail before it, and uses up exactly the attempts that it made; it throws
-- std::invalid_argument when n + 1 attempts fail.
pub connect_to_server_retries :
    (n ms to : ℕ) (fs : List (Option ℕ)) (s : Option ℕ) (rest : Attempts) (p q : Process)
    → p.connects to ≡ failures fs ++ ((s, conn_ok) ∷ rest)
    → length fs ≤ n
    → (gs : List (Option ℕ)) (rest' : Attempts) → q.connects to ≡ failures gs ++ rest'
    → n < length gs
    → (connect_to_server to (limited n ms) p
        ≡ returned s (record p { connects = left_over p.connects to rest }))
      × (connect_to_server to (limited n ms) q ≡ threw invalid_argument)
unfolding connect_to_server connected
connect_to_server_retries n ms to fs s rest p q e few gs rest' e' many = (
  connect_to_server_finds n ms to fs s rest p e few,
  rw (e', loop_gives_up n ms 0 gs rest' (omega arith) (omega arith)) refl,
)
