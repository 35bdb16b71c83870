-- ===== src/Mpi/PointToPoint/Laws.antt =====
-- What RDMA_Send puts on a socket RDMA_Recv stores; the refusals; a connection that has closed.
use ffrdma.Common.{
  ℕ, suc, ◌≡◌, refl, ◌≢◌, ◌≤◌, true, false, Option, none, some, List, [], ◌∷◌, ◌++◌, arith, ℤ, pos,
  length, take, length-take, take-take, eqb_ℤ, eqb_ℤ_refl, eqb_ℤ_ne,
}
use ffrdma.Mpi.Machine.{Bytes, Proc, CommView, ok, fault, scale, pop_inbox}
use ffrdma.Mpi.Memory.{patch, memcpy-ok}
use ffrdma.Mpi.Steps.{
  message, create-ok, destroy-ok, send-ok, send-fails, recv-ok, recv-null, irecv-null,
}
use ffrdma.Mpi.PointToPoint.{refusal, rdma_send, rdma_recv, rdma_irecv, store_message}

-- Every refused call returns the code of its first failed check and touches nothing.
pub rdma_send_refused :
    (v : CommView) (buf : Option Bytes) (count type peer : ℤ) {code : ℤ} (s : Proc)
    → refusal v buf count peer ≡ some code
    → (rdma_send v buf count type peer s ≡ ok code s)
      × (rdma_recv v buf count type peer s ≡ ok (code, buf) s)
      × (rdma_irecv v buf count type peer s ≡ ok (code, buf) s)
unfolding rdma_send rdma_recv rdma_irecv
rdma_send_refused v buf count type peer s e =
    (rw (e, rdma_send), rw (e, rdma_recv), rw (e, rdma_irecv))

module _ (v : CommView) (buf : Bytes) (count type : ℤ) (n peer to : ℕ) (s : Proc)
    (accepted : refusal v (some buf) count (pos peer) ≡ none)
    (scaled : scale count type ≡ some (pos n)) (socket : v.socket (pos peer) ≡ some (some to)) where
  -- With a socket that works, the bytes go out once, the call returns 0, and the message is freed.
  pub rdma_send-ok :
      n ≤ length buf
      → s.statuses ≡ []
      → rdma_send v (some buf) count type (pos peer) s
        ≡ ok (pos 0) (record s { sent = s.sent ++ ((to, take n buf) ∷ []); next = suc s.next })
  unfolding rdma_send
  rdma_send-ok h e =
      let m = message s.next buf (pos n) 0 false in
      let s' : Proc = record s { live = s.next ∷ s.live; next = suc s.next } in
      rw (accepted, rdma_send, scaled, create-ok buf (pos n) 0 false s, socket)
        (rw (send-ok to m n s' e refl h)
          (rw (destroy-ok m s.live (record s' { sent = s.sent ++ ((to, take n buf) ∷ []) }) refl)))

  -- A send that fails returns the socket's status, and frees the message too.
  pub rdma_send-fails :
      (r : ℤ) (rs : List ℤ)
      → n ≤ length buf
      → s.statuses ≡ r ∷ rs
      → r ≢ pos 0
      → rdma_send v (some buf) count type (pos peer) s
        ≡ ok r (record s { statuses = rs; next = suc s.next })
  unfolding rdma_send
  rdma_send-fails r rs h e bad =
      let m = message s.next buf (pos n) 0 false in
      let s' : Proc = record s { live = s.next ∷ s.live; next = suc s.next } in
      rw (accepted, rdma_send, scaled, create-ok buf (pos n) 0 false s, socket)
        (rw (send-fails to m n r rs s' e bad refl h)
          (rw (destroy-ok m s.live (record s' { statuses = rs }) refl)))

  rdma_recv-store :
      (bytes : Bytes) (rest : List (Option Bytes))
      → s.inbox to ≡ some bytes ∷ rest
      → rdma_recv v (some buf) count type (pos peer) s
        ≡ store_message buf (pos n) (message s.next bytes (pos (length bytes)) 0 true) (record s {
          inbox = pop_inbox s.inbox to rest;
          live = s.next ∷ s.live;
          next = suc s.next;
        })
  unfolding rdma_recv
  rdma_recv-store bytes rest e =
      rw (accepted, rdma_recv, scaled, socket) (rw (recv-ok to bytes rest s e))

  -- A message of the expected length goes to the front of the buffer, the rest of which stays.
  pub rdma_recv-ok :
      (bytes : Bytes) (rest : List (Option Bytes))
      → s.inbox to ≡ some bytes ∷ rest
      → length bytes ≡ n
      → n ≤ length buf
      → rdma_recv v (some buf) count type (pos peer) s
        ≡ ok
            (pos 0, some (patch buf 0 (take n bytes)))
            (record s { inbox = pop_inbox s.inbox to rest; next = suc s.next })
  unfolding store_message
  rdma_recv-ok bytes rest e len h =
      let m = message s.next bytes (pos (length bytes)) 0 true in
      let s' : Proc = record s {
        inbox = pop_inbox s.inbox to rest;
        live = s.next ∷ s.live;
        next = suc s.next;
      } in
      let same : eqb_ℤ (pos (length bytes)) (pos n) ≡ true = rw len (eqb_ℤ_refl (pos n)) in
      rw (rdma_recv-store bytes rest e, same)
        (rw (memcpy-ok buf bytes 0 n s' (omega arith) (omega arith))
          (rw (destroy-ok m s.live s' refl)))

  -- A message of another length is dropped: code 6, and the buffer is as it was.
  pub rdma_recv-mismatch :
      (bytes : Bytes) (rest : List (Option Bytes))
      → s.inbox to ≡ some bytes ∷ rest
      → length bytes ≢ n
      → rdma_recv v (some buf) count type (pos peer) s
        ≡ ok (pos 6, some buf) (record s { inbox = pop_inbox s.inbox to rest; next = suc s.next })
  unfolding store_message
  rdma_recv-mismatch bytes rest e ne =
      let m = message s.next bytes (pos (length bytes)) 0 true in
      let s' : Proc = record s {
        inbox = pop_inbox s.inbox to rest;
        live = s.next ∷ s.live;
        next = suc s.next;
      } in
      rw (rdma_recv-store bytes rest e, eqb_ℤ_ne (length bytes) n ne)
        (rw (destroy-ok m s.live s' refl))

  -- RDMA_Recv reads msg->length with no check for NULL: on a closed connection it faults, where
  -- RDMA_Irecv returns 1.
  pub rdma_recv_closed :
      (rest : List (Option Bytes))
      → s.inbox to ≡ none ∷ rest
      → s.closed to ≡ true
      → (rdma_recv v (some buf) count type (pos peer) s ≡ fault)
        × (rdma_irecv v (some buf) count type (pos peer) s
            ≡ ok (pos 1, some buf) (record s { inbox = pop_inbox s.inbox to rest }))
  unfolding rdma_recv rdma_irecv
  rdma_recv_closed rest e closed = (
    rw (accepted, rdma_recv, scaled, socket) (rw (recv-null to rest s e)),
    rw (accepted, rdma_irecv, scaled, socket) (rw (irecv-null to rest s e) (rw closed)),
  )

-- What one process sends, the other receives: both calls return 0, and the receiver's buffer starts
-- with the sender's bytes.
pub send-recv_roundtrip :
    (v w : CommView) (buf dst : Bytes) (count type : ℤ) (n dest source to from : ℕ) (s t : Proc)
    → refusal v (some buf) count (pos dest) ≡ none
    → refusal w (some dst) count (pos source) ≡ none
    → scale count type ≡ some (pos n)
    → v.socket (pos dest) ≡ some (some to)
    → w.socket (pos source) ≡ some (some from)
    → n ≤ length buf
    → n ≤ length dst
    → s.statuses ≡ []
    → (rest : List (Option Bytes)) → t.inbox from ≡ some (take n buf) ∷ rest
    → (rdma_send v (some buf) count type (pos dest) s
        ≡ ok (pos 0) (record s { sent = s.sent ++ ((to, take n buf) ∷ []); next = suc s.next }))
      × (rdma_recv w (some dst) count type (pos source) t
          ≡ ok
              (pos 0, some (patch dst 0 (take n buf)))
              (record t { inbox = pop_inbox t.inbox from rest; next = suc t.next }))
send-recv_roundtrip v w buf dst count type n dest source to from s t ok_v ok_w scaled sv sw fits
      room idle rest arrived =
    (
      rdma_send-ok v buf count type n dest to s ok_v scaled sv fits idle,
      rw (
        rdma_recv-ok w dst count type n source from t ok_w scaled sw (take n buf) rest arrived
            (length-take n buf fits) room,
        take-take,
      ),
    )
