-- ===== src/Mpi/Machine.antt =====
-- What one process of src/mpi.cc computes with: messages of rsocket/src/amessage.cpp, the calls
-- send_, recv_ and irecv_ as the process sees them, memcpy, and C's int product. Undefined
-- behaviour is the outcome `fault`, and a recv_ that waits for ever is `blocked`.
use ffrdma.Common.{
  ℕ, suc, ◌+◌, ◌^◌, Bool, true, Option, none, some, List, [], ◌∷◌, ◌++◌, ℤ, pos, negsuc, ◌*ℤ◌, ltb,
  leb, ◌==◌, if◌then◌else◌, length, get_elem?, take, drop,
}

abbrev pub Bytes : Type 0
Bytes = List ℕ

-- `self` is the address of the struct, `buffer` what can be read from its buffer pointer on.
pub record AMessage : Type 0 where
  pub self : ℕ
  pub buffer : Bytes
  pub flag : ℕ
  pub length : ℤ
  pub if_free_buffer : Bool
  pub node_id : ℕ

-- For each socket what the coming receives yield, `none` being NULL, and its close_flag; what the
-- coming sends return (0 when the list has run out); what was sent, in order; and the messages
-- that are allocated.
pub record Proc : Type 0 where
  pub inbox : ℕ → List (Option Bytes)
  pub closed : ℕ → Bool
  pub statuses : List ℤ
  pub sent : List (ℕ × Bytes)
  pub live : List ℕ
  pub next : ℕ

pub data Run (A : Type 0) : Type 0 where
  ok : A → Proc → Run A
  fault : Run A
  blocked : Run A

abbrev pub M : Type 0 → Type 0
M A = Proc → Run A

abbrev pub pure : {A : Type 0} → A → M A
pure = ok

module _ {A B : Type 0} where
  abbrev pub and_then : Run A → (A → M B) → Run B
  and_then (ok a s) k = k a s
  and_then fault k = fault
  and_then blocked k = blocked

  infixl 5 ◌>>=◌ ◌>>◌
  abbrev pub ◌>>=◌ : M A → (A → M B) → M B
  m >>= k = λ s. and_then (m s) k

  abbrev pub ◌>>◌ : M A → M B → M B
  m >> n = m >>= λ _. n

-- Undefined behaviour where a value is missing.
abbrev pub demand : {A : Type 0} → Option A → M A
demand none s = fault
demand (some a) s = ok a s

-- An early return with a code.
abbrev pub unless_refused : {A : Type 0} → Option ℤ → (ℤ → A) → M A → M A
unless_refused none give next = next
unless_refused (some code) give next = pure (give code)

abbrev pub int_limit : ℕ
int_limit = 2 ^ 31

-- The product of two C ints: it overflows outside -2^31 .. 2^31 - 1.
unfoldable pub int_range : ℤ → Option ℤ
int_range (pos n) = if ltb n int_limit then some (pos n) else none
int_range (negsuc n) = if ltb n int_limit then some (negsuc n) else none

unfoldable pub int_product : ℤ → ℤ → Option ℤ
unfolding int_range
int_product a b = int_range (a *ℤ b)

abbrev pub type_static : List ℤ
type_static = pos 8 ∷ pos 4 ∷ pos 8 ∷ pos 1 ∷ []

-- An array read at an int: none when it is out of range.
unfoldable pub index {ℓ} : {A : Type ℓ} → List A → ℤ → Option A
index xs (pos i) = get_elem? xs i
index xs (negsuc i) = none

-- count *= type_static[type]
unfoldable pub scale : ℤ → ℤ → Option ℤ
unfolding index int_product
scale count type = elim (index type_static type) [ none ↦ none | some w ↦ int_product count w ]

unfoldable pub amessage_create : Bytes → ℤ → ℕ → Bool → M AMessage
amessage_create buffer length flag if_free s =
    ok message (record s { live = s.next ∷ s.live; next = suc s.next })
  where
    message : AMessage
    message = record {
      self = s.next;
      buffer = buffer;
      flag = flag;
      length = length;
      if_free_buffer = if_free;
      node_id = 0;
    }

unfoldable pub release : ℕ → List ℕ → Option (List ℕ)
release a [] = none
release a (x ∷ xs) =
    if x == a then some xs else elim (release a xs) [ none ↦ none | some ys ↦ some (x ∷ ys) ]

unfoldable pub freed : Option (List ℕ) → M (Unit {0})
freed none s = fault
freed (some l) s = ok tt (record s { live = l })

-- NULL is dereferenced, and what is not allocated is freed twice: both are faults.
unfoldable pub amessage_destroy : Option AMessage → M (Unit {0})
unfolding freed
amessage_destroy none s = fault
amessage_destroy (some m) s = freed (release m.self s.live) s

-- The first n bytes from a pointer: too few, or a negative n, is a fault.
unfoldable pub read : Bytes → ℤ → Option Bytes
read src (negsuc n) = none
read src (pos n) = if leb n (length src) then some (take n src) else none

-- The pointer `src + off`.
unfoldable pub at : Bytes → ℤ → Option Bytes
at src (negsuc n) = none
at src (pos n) = if leb n (length src) then some (drop n src) else none

-- `bytes` written from offset `off` on.
unfoldable pub overwrite : Bytes → ℤ → Bytes → Option Bytes
overwrite dst (negsuc n) bytes = none
overwrite dst (pos n) bytes =
    if leb (n + length bytes) (length dst)
    then some (take n dst ++ (bytes ++ drop (n + length bytes) dst))
    else none

-- memcpy(dst + off, src, n)
unfoldable pub memcpy : Bytes → ℤ → Bytes → ℤ → M Bytes
unfolding read overwrite
memcpy dst off src n = do bytes ← demand (read src n); demand (overwrite dst off bytes)

abbrev pub deliver : ℤ → ℕ → Bytes → List (ℕ × Bytes) → List (ℕ × Bytes)
deliver (pos n) to bytes sent = if n == 0 then sent ++ ((to, bytes) ∷ []) else sent
deliver (negsuc n) to bytes sent = sent

unfoldable pub next_status : ℕ → Bytes → List ℤ → M ℤ
next_status to bytes [] s = ok (pos 0) (record s { sent = s.sent ++ ((to, bytes) ∷ []) })
next_status to bytes (r ∷ rs) s =
    ok r (record s { statuses = rs; sent = deliver r to bytes s.sent })

-- send_ copies the bytes of the message and says whether they went out.
unfoldable pub send : Option ℕ → AMessage → M ℤ
unfolding read next_status
send none m s = fault
send (some to) m s =
    and_then (demand (read m.buffer m.length) s) λ bytes s'. next_status to bytes s'.statuses s'

abbrev pub pop_inbox : (ℕ → List (Option Bytes)) → ℕ → List (Option Bytes) → ℕ → List (Option Bytes)
pop_inbox inbox from rest q = if q == from then rest else inbox q

unfoldable pub take_from : ℕ → List (Option Bytes) → Run (Option AMessage) → M (Option AMessage)
unfolding amessage_create
take_from from [] idle s = idle
take_from from (none ∷ rest) idle s = ok none (record s { inbox = pop_inbox s.inbox from rest })
take_from from (some bytes ∷ rest) idle s =
    and_then (amessage_create bytes (pos (length bytes)) 0 true s)
      λ m s'. ok (some m) (record s' { inbox = pop_inbox s'.inbox from rest })

-- recv_ waits for a message, and returns NULL on a closed connection.
unfoldable pub recv : Option ℕ → M (Option AMessage)
unfolding take_from
recv none s = fault
recv (some from) s = take_from from (s.inbox from) blocked s

-- irecv_ does not wait.
unfoldable pub irecv : Option ℕ → M (Option AMessage)
unfolding take_from
irecv none s = fault
irecv (some from) s = take_from from (s.inbox from) (ok none s) s

-- What src/mpi.cc asks of a communicator: RDMA_Rank, RDMA_Size, and RDMA_Socket, which is none
-- where an array is read out of range and `some none` where the socket is NULL.
pub record CommView : Type 0 where
  pub rank : ℕ
  pub size : ℕ
  pub socket : ℤ → Option (Option ℕ)
