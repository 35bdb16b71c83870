-- ===== src/Rsocket/Poll.antt =====
-- poll_wc of rsocket/src/poll_wc.cpp, the loops on it, and rsocket/src/post_wr.cpp.
use ffrdma.Common.{
  ℕ, zero, suc, ◌+◌, ◌-◌, Option, none, some, List, [], ◌∷◌, ◌++◌, ℤ, pos, negsuc, eqb_ℤ,
  if◌then◌else◌, length,
}
use ffrdma.Rsocket.Machine.{
  MetaData, wc_send, wc_rdma_read, wc_recv, wc_other, Wc, Sock, done, blocked, M, pure, ◌>>=◌, ◌>>◌,
  stop, gets, modify, test, try_close_lock,
}

-- What the loop over the completions of an event finds: the last send or read completion, if any,
-- and the receive completions in order.
unfoldable pub last_send : List Wc → Option Wc → Option Wc
last_send [] last = last
last_send (wc ∷ wcs) last = elim wc.opcode [
  | wc_send ↦ last_send wcs (some wc)
  | wc_rdma_read ↦ last_send wcs (some wc)
  | wc_recv ↦ last_send wcs last
  | wc_other ↦ last_send wcs last
]

unfoldable pub receives : List Wc → List Wc
receives [] = []
receives (wc ∷ wcs) = elim wc.opcode [
  | wc_send ↦ receives wcs
  | wc_rdma_read ↦ receives wcs
  | wc_recv ↦ wc ∷ receives wcs
  | wc_other ↦ receives wcs
]

-- ibv_get_cq_event: it waits for the next event.
abbrev pub next_event : List (Option (List Wc)) → M (Option (List Wc))
next_event [] s = blocked
next_event (e ∷ rest) s = done e (record s { events = rest })

unfoldable pub get_cq_event : M (Option (List Wc))
get_cq_event s = next_event s.events s

unfoldable pub push_wcs : List Wc → M (Unit {0})
push_wcs wcs = modify (λ s. record s { wr_queue = s.wr_queue ++ wcs; arrived = s.arrived ++ wcs })

abbrev pub flag_of : Option Wc → ℤ
flag_of none = pos 1
flag_of (some wc) = pos 0

unfoldable pub drain_event : Option (List Wc) → M (ℤ × Option Wc)
drain_event none = pure (negsuc 0, none)
drain_event (some wcs) = do
  push_wcs (receives wcs)
  test
  pure (flag_of (last_send wcs none), last_send wcs none)

-- The returned flag, and what is written to *send_wc.
unfoldable pub poll_wc : M (ℤ × Option Wc)
poll_wc = do
  closing ← try_close_lock
  (if closing then pure (negsuc 0, none) else (get_cq_event >>= drain_event))

-- while(poll_wc(socket_, &wc)): it goes on at 1 and at -1. The completion is what was written last.
unfoldable pub poll_until_sent : ℕ → M (Option Wc)
poll_until_sent zero = stop blocked
poll_until_sent (suc fuel) = do
  (flag, wc) ← poll_wc
  (let again = poll_until_sent fuel in if eqb_ℤ flag (pos 0) then pure wc else again)

-- Each round uses up a trylock or an event; when both lists have run out the call waits, and on a
-- lock that stays held it spins.
abbrev pub rounds : Sock → ℕ
rounds s = suc (length s.locks + length s.events)

unfoldable pub wait_sent : M (Option Wc)
wait_sent = gets rounds >>= poll_until_sent

-- post_recv_wr, without the registration of the buffer, and rdma_post_recv.
unfoldable pub post_recv : ℕ → M (Unit {0})
post_recv rinfo = test >> modify (λ s. record s { posted = s.posted ++ (rinfo ∷ []) })

unfoldable pub post_send : MetaData → M (Unit {0})
post_send md = modify (λ s. record s { out = s.out ++ (md ∷ []) })

-- post_send_wr registers the metadata and posts it.
unfoldable pub post_send_wr : MetaData → M (Unit {0})
post_send_wr md = do test; modify (λ s. record s { mrs = suc s.mrs }); post_send md

-- ibv_dereg_mr of the registration of a metadata buffer.
unfoldable pub dereg_metadata : M (Unit {0})
dereg_metadata = modify (λ s. record s { mrs = s.mrs - 1 })
