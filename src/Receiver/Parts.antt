-- ===== src/Receiver/Parts.antt =====
-- Messages in several parts, and the messages of one socket.
use ffrdma.Common.{
  ℕ, ◌≡◌, sym, ap, ◌∙◌, true, false, List, [], ◌∷◌, ◌++◌, ◌==◌, if◌then◌else◌, append_assoc,
  append-nil,
}
use ffrdma.Mpi.Machine.{AMessage}
use ffrdma.Common.{◌⊎◌, inl, inr, refl}
use ffrdma.Receiver.{Turn, message, closed, check_sndmore}

-- More parts follow each of these.
abbrev pub IsOpen : List AMessage → Type 0
IsOpen [] = Unit {0}
IsOpen (m ∷ ms) = (check_sndmore m ≡ true) × IsOpen ms

-- All parts of one message: more follow each but the last.
abbrev pub IsWhole : List AMessage → Type 0
IsWhole ms =
    (parts : List AMessage) × (last : AMessage) × IsOpen parts
    × (check_sndmore last ≡ false)
    × (ms ≡ parts ++ (last ∷ []))

-- The thread of the socket has ended, with these messages in the socket's recv_queue.
abbrev pub Ended : ℕ → List AMessage → List (ℕ × Turn) → Type 0
Ended sock left [] = ⊥
Ended sock left ((other, turn) ∷ ts) = ((sock ≡ other) × (turn ≡ closed left)) ⊎ Ended sock left ts

-- What a thread that ends hands on: the parts that wait, to which the last one is missing, and the
-- messages that are left.
abbrev pub IsRest : ℕ → List AMessage → List (ℕ × Turn) → Type 0
IsRest sock ms ts =
    (parts : List AMessage) × (left : List AMessage) × IsOpen parts
    × Ended sock left ts
    × (ms ≡ parts ++ left)

abbrev pub AllGroups : List (ℕ × Turn) → List (ℕ × List AMessage) → Type 0
AllGroups ts [] = Unit {0}
AllGroups ts ((sock, g) ∷ gs) = (IsWhole g ⊎ IsRest sock g ts) × AllGroups ts gs

abbrev pub joined : List (ℕ × List AMessage) → List AMessage
joined [] = []
joined ((sock, g) ∷ gs) = g ++ joined gs

-- The messages of one socket, among whole ones and among turns.
abbrev pub whole_of : ℕ → List (ℕ × List AMessage) → List AMessage
whole_of sock [] = []
whole_of sock ((other, g) ∷ gs) = (if sock == other then g else []) ++ whole_of sock gs

abbrev pub given : Turn → List AMessage
given (message m) = m ∷ []
given (closed left) = left

abbrev pub turns_of : ℕ → List (ℕ × Turn) → List AMessage
turns_of sock [] = []
turns_of sock ((other, t) ∷ ts) = (if sock == other then given t else []) ++ turns_of sock ts

pub IsOpen-append :
    (ms : List AMessage) (m : AMessage)
    → IsOpen ms
    → check_sndmore m ≡ true
    → IsOpen (ms ++ (m ∷ []))
IsOpen-append [] m h e = (e, tt)
IsOpen-append (x ∷ xs) m (hx, h) e = (hx, IsOpen-append xs m h e)

Ended-append :
    (sock : ℕ) (left : List AMessage) (ts : List (ℕ × Turn)) (t : ℕ × Turn)
    → Ended sock left ts
    → Ended sock left (ts ++ (t ∷ []))
Ended-append sock left [] t e = absurd e
Ended-append sock left ((other, u) ∷ ts) t (inl here) = inl here
Ended-append sock left ((other, u) ∷ ts) t (inr there) = inr (Ended-append sock left ts t there)

pub Ended-last :
    (sock : ℕ) (left : List AMessage) (ts : List (ℕ × Turn))
    → Ended sock left (ts ++ ((sock, closed left) ∷ []))
Ended-last sock left [] = inl (refl, refl)
Ended-last sock left (t ∷ ts) = inr (Ended-last sock left ts)

pub AllGroups-later :
    (ts : List (ℕ × Turn)) (t : ℕ × Turn) (gs : List (ℕ × List AMessage))
    → AllGroups ts gs
    → AllGroups (ts ++ (t ∷ [])) gs
AllGroups-later ts t [] h = tt
AllGroups-later ts t ((sock, g) ∷ gs) (inl whole, h) = (inl whole, AllGroups-later ts t gs h)
AllGroups-later ts t ((sock, g) ∷ gs) (inr (parts, left, open_parts, end, eq), h) =
    (inr (parts, left, open_parts, Ended-append sock left ts t end, eq), AllGroups-later ts t gs h)

pub AllGroups-append :
    (ts : List (ℕ × Turn)) (gs : List (ℕ × List AMessage)) (sock : ℕ) (g : List AMessage)
    → AllGroups ts gs
    → IsWhole g ⊎ IsRest sock g ts
    → AllGroups ts (gs ++ ((sock, g) ∷ []))
AllGroups-append ts [] sock g h w = (w, tt)
AllGroups-append ts ((other, x) ∷ gs) sock g (hx, h) w = (hx, AllGroups-append ts gs sock g h w)

pub joined-append :
    (gs : List (ℕ × List AMessage)) (sock : ℕ) (g : List AMessage)
    → joined (gs ++ ((sock, g) ∷ [])) ≡ joined gs ++ g
joined-append [] sock g = append-nil g
joined-append ((other, x) ∷ gs) sock g =
    ap (λ l. x ++ l) (joined-append gs sock g) ∙ sym (append_assoc x (joined gs) g)

pub whole_of-append :
    (i : ℕ) (gs : List (ℕ × List AMessage)) (sock : ℕ) (g : List AMessage)
    → whole_of i (gs ++ ((sock, g) ∷ [])) ≡ whole_of i gs ++ (if i == sock then g else [])
whole_of-append i [] sock g = append-nil _
whole_of-append i ((other, x) ∷ gs) sock g =
    ap (λ l. (if i == other then x else []) ++ l) (whole_of-append i gs sock g)
    ∙ sym (append_assoc (if i == other then x else []) (whole_of i gs) _)

pub turns_of-append :
    (i : ℕ) (ts : List (ℕ × Turn)) (sock : ℕ) (t : Turn)
    → turns_of i (ts ++ ((sock, t) ∷ [])) ≡ turns_of i ts ++ (if i == sock then given t else [])
turns_of-append i [] sock t = append-nil _
turns_of-append i ((other, x) ∷ ts) sock t =
    ap (λ l. (if i == other then given x else []) ++ l) (turns_of-append i ts sock t)
    ∙ sym (append_assoc (if i == other then given x else []) (turns_of i ts) _)
