-- ===== src/Process/Reconnect.antt =====
-- RDMA_Reconnect, which is reconnect of src/process.cc.
use ffrdma.Common.{ℕ, Option, none, some}
use ffrdma.Process.{failed, Outcome, Process, Outcome, failed}

-- What a call comes to that closes the old socket of a slot: NULL is dereferenced.
abbrev pub closing : Option ℕ → (ℕ → Outcome (Option ℕ)) → Outcome (Option ℕ)
closing none k = failed
closing (some old) k = k old
