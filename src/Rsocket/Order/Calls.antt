-- ===== src/Rsocket/Order/Calls.antt =====
-- The messages that the calls on a connection return.
use ffrdma.Rsocket.Order.Receive.{Now, Given, same, recv-Gives, irecv-Gives}
use ffrdma.Rsocket.Order.Send.{send-Gives}
use ffrdma.Rsocket.Keeps.{Gives, Finishes, Gives-bind, Gives-pure}
use ffrdma.Rsocket.Transfer.{send_}
use ffrdma.Common.{ℕ, subst, false, none, List, []}
use ffrdma.Mpi.Machine.{AMessage, Bytes}
use ffrdma.Rsocket.Machine.{Sock}
use ffrdma.Rsocket.Order.Resolve.{Holds}
use ffrdma.Rsocket.Start.{
  Reaches, at_start, after, Call, call_send, call_irecv, call_recv, run_call,
}

module _ (remote : ℕ → ℕ → Bytes) (taken : List AMessage) where
  call-Gives : (c : Call) → Gives (Now remote taken) (Given remote taken) (run_call c)
  unfolding run_call
  call-Gives (call_send msg) =
      Gives-bind (send_ msg) _ (send-Gives remote taken msg)
        λ _. Gives-pure none (same remote taken)
  call-Gives call_irecv = irecv-Gives remote taken
  call-Gives call_recv = recv-Gives remote taken

pub Reaches-ordered :
    (remote : ℕ → ℕ → Bytes) (s s' : Sock) (taken : List AMessage)
    → Holds remote [] [] false s
    → Reaches s taken s'
    → Holds remote taken [] false s'
Reaches-ordered remote s _ _ h at_start = h
Reaches-ordered remote s _ _ h (after taken s' s'' c o r e) =
    subst (Finishes (Given remote taken)) e
      ((call-Gives remote taken c).at s' (Reaches-ordered remote s s' taken h r))
