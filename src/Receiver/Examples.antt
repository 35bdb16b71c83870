-- ===== src/Receiver/Examples.antt =====
-- A message in two parts, with one of another socket between them.
use ffrdma.Common.{true, ℕ, List, [], ◌∷◌, pos}
use ffrdma.Mpi.Machine.{AMessage}
use ffrdma.Receiver.{Turn, message, closed}

abbrev part : ℕ → ℕ → AMessage
part byte flag = record {
  self = byte;
  buffer = byte ∷ [];
  flag = flag;
  length = pos 1;
  if_free_buffer = true;
  node_id = 0;
}

-- Socket 2 closes with a part that waits and a message left.
abbrev turns : List (ℕ × Turn)
turns =
    (1, message (part 10 128))
    ∷ ((2, message (part 20 0))
        ∷ ((1, message (part 11 0))
            ∷ ((2, message (part 21 128)) ∷ ((2, closed (part 22 0 ∷ [])) ∷ []))))
