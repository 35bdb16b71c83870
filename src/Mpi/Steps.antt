-- ===== src/Mpi/Steps.antt =====
-- One equation for each primitive of the process on its normal path.
use ffrdma.Common.{
  ℕ, suc, ◌+◌, ◌*◌, ◌≤◌, ◌<◌, ◌≡◌, refl, ap, ◌≢◌, ◌∙◌, Bool, true, Option, none, some, List, [],
  ◌∷◌, ◌++◌, arith, ℤ, pos, negsuc, ==-refl, length, take,
}
use ffrdma.Mpi.Machine.{
  Bytes, AMessage, Proc, ok, blocked, int_product, int_range, int_limit, amessage_create,
  amessage_destroy, release, freed, deliver, next_status, send, irecv, pop_inbox, take_from, recv,
}
use ffrdma.Mpi.Memory.{read-ok}

-- A message that this process allocated at address `a`.
abbrev pub message : ℕ → Bytes → ℤ → ℕ → Bool → AMessage
message a b n flag if_free = record {
  self = a;
  buffer = b;
  flag = flag;
  length = n;
  if_free_buffer = if_free;
  node_id = 0;
}

pub int_product-ok :
    (a b : ℕ) → a * b < int_limit → int_product (pos a) (pos b) ≡ some (pos (a * b))
unfolding int_product int_range
int_product-ok a b h =
    let zeros : a * 0 + 0 * b ≡ 0 = omega arith in
    let same : a * b + 0 ≡ a * b = omega arith in rw (zeros, same) (ground arith)

pub create-ok :
    (b : Bytes) (n : ℤ) (flag : ℕ) (if_free : Bool) (s : Proc)
    → amessage_create b n flag if_free s
      ≡ ok
          (message s.next b n flag if_free)
          (record s { live = s.next ∷ s.live; next = suc s.next })
unfolding amessage_create
create-ok b n flag if_free s = refl

release_head : (a : ℕ) (l : List ℕ) → release a (a ∷ l) ≡ some l
unfolding release
release_head a l = rw (==-refl a)

-- The newest message is freed.
pub destroy-ok :
    (m : AMessage) (l : List ℕ) (s : Proc)
    → s.live ≡ m.self ∷ l
    → amessage_destroy (some m) s ≡ ok tt (record s { live = l })
unfolding amessage_destroy
destroy-ok m l s e = ap (λ o. freed o s) (ap (release m.self) e ∙ release_head m.self l)

pub send-ok :
    (to : ℕ) (m : AMessage) (n : ℕ) (s : Proc)
    → s.statuses ≡ []
    → m.length ≡ pos n
    → n ≤ length m.buffer
    → send (some to) m s ≡ ok (pos 0) (record s { sent = s.sent ++ ((to, take n m.buffer) ∷ []) })
unfolding send
send-ok to m n s e len h =
    rw (len, read-ok m.buffer n h) (ap (λ rs. next_status to (take n m.buffer) rs s) e)

deliver_failed :
    (r : ℤ) (to : ℕ) (b : Bytes) (sent : List (ℕ × Bytes)) → r ≢ pos 0 → deliver r to b sent ≡ sent
deliver_failed (pos n) to b sent h = ground (arith, h)
deliver_failed (negsuc n) to b sent h = refl

-- A send that fails sends nothing and returns the status.
pub send-fails :
    (to : ℕ) (m : AMessage) (n : ℕ) (r : ℤ) (rs : List ℤ) (s : Proc)
    → s.statuses ≡ r ∷ rs
    → r ≢ pos 0
    → m.length ≡ pos n
    → n ≤ length m.buffer
    → send (some to) m s ≡ ok r (record s { statuses = rs })
unfolding send
send-fails to m n r rs s e bad len h =
    rw (len, read-ok m.buffer n h)
      (ap (λ rs. next_status to (take n m.buffer) rs s) e
        ∙ ap (λ l. ok r (record s { statuses = rs; sent = l })) (deliver_failed r to _ s.sent bad))

pub recv-ok :
    (from : ℕ) (bytes : Bytes) (rest : List (Option Bytes)) (s : Proc)
    → s.inbox from ≡ some bytes ∷ rest
    → recv (some from) s
      ≡ ok (some (message s.next bytes (pos (length bytes)) 0 true)) (record s {
        inbox = pop_inbox s.inbox from rest;
        live = s.next ∷ s.live;
        next = suc s.next;
      })
unfolding recv amessage_create
recv-ok from bytes rest s e = ap (λ q. take_from from q blocked s) e

pub recv-null :
    (from : ℕ) (rest : List (Option Bytes)) (s : Proc)
    → s.inbox from ≡ none ∷ rest
    → recv (some from) s ≡ ok none (record s { inbox = pop_inbox s.inbox from rest })
unfolding recv
recv-null from rest s e = ap (λ q. take_from from q blocked s) e

pub irecv-null :
    (from : ℕ) (rest : List (Option Bytes)) (s : Proc)
    → s.inbox from ≡ none ∷ rest
    → irecv (some from) s ≡ ok none (record s { inbox = pop_inbox s.inbox from rest })
unfolding irecv
irecv-null from rest s e = ap (λ q. take_from from q (ok none s) s) e
