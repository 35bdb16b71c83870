-- ===== src/Queue/Chain.antt =====
-- Nodes linked from an address to another, as a predicate on the heap.
use ffrdma.Common.{
  ℕ, ◌≡◌, refl, ◌≢◌, sym, ◌∙◌, ap, Option, some, List, [], ◌∷◌, ◌++◌, ne→==, ==-refl,
}
use ffrdma.Queue.{Heap, Node, node, write}

-- The address and the buffer of each node, in order.
abbrev pub Cells : Type 0
Cells = List (ℕ × ℕ)

abbrev pub Fresh : ℕ → Cells → Type 0
Fresh a [] = Unit {0}
Fresh a ((p, _) ∷ cs) = (a ≢ p) × Fresh a cs

abbrev pub Disjoint : Cells → Cells → Type 0
Disjoint [] ds = Unit {0}
Disjoint ((p, _) ∷ cs) ds = Fresh p ds × Disjoint cs ds

-- From `p` the next pointers lead through the distinct nodes `cs` to `stop`.
abbrev pub Chain : Heap → ℕ → ℕ → Cells → Type 0
Chain h p stop [] = p ≡ stop
Chain h p stop ((a, b) ∷ cs) =
    (q : ℕ) × (p ≡ a) × (a ≢ 0) × (h a ≡ some (node b q)) × Fresh a cs × Chain h q stop cs

-- The last address, or `a` if there is none.
abbrev pub last_addr : ℕ → Cells → ℕ
last_addr a [] = a
last_addr a ((p, _) ∷ cs) = last_addr p cs

pub Fresh-append : (a : ℕ) (cs ds : Cells) → Fresh a cs → Fresh a ds → Fresh a (cs ++ ds)
Fresh-append a [] ds f g = g
Fresh-append a (c ∷ cs) ds f g = (f.0, Fresh-append a cs ds f.1 g)

pub Fresh-last : (a p b : ℕ) (cs : Cells) → Fresh a ((p, b) ∷ cs) → a ≢ last_addr p cs
Fresh-last a p b [] f = f.0
Fresh-last a p b ((q, w) ∷ cs) f = Fresh-last a q w cs f.1

-- A write elsewhere leaves the chain alone.
pub frame :
    (h : Heap) (a : ℕ) (n : Option Node) (p stop : ℕ) (cs : Cells)
    → Fresh a cs
    → Chain h p stop cs
    → Chain (write h a n) p stop cs
frame h a n p stop [] f c = c
frame h a n p stop ((x, b) ∷ cs) f (q, e, nz, at, fr, rest) =
    (q, e, nz, rw (ne→== x a (λ eq. f.0 (sym eq))) at, fr, frame h a n q stop cs f.1 rest)

pub append :
    (h : Heap) (p m stop : ℕ) (cs ds : Cells)
    → Disjoint cs ds
    → Chain h p m cs
    → Chain h m stop ds
    → Chain h p stop (cs ++ ds)
append h p m stop [] ds dis c d = rw c d
append h p m stop ((x, b) ∷ cs) ds dis (q, e, nz, at, fr, rest) d =
    (q, e, nz, at, Fresh-append x cs ds fr dis.0, append h q m stop cs ds dis.1 rest d)

-- Writing the next pointer of the last node moves the end of the chain.
pub link :
    (h : Heap) (p a b target : ℕ) (cs : Cells)
    → Chain h p 0 ((a, b) ∷ cs)
    → (w : ℕ) × (last_addr a cs ≢ 0)
      × (h (last_addr a cs) ≡ some (node w 0))
      × Chain (write h (last_addr a cs) (some (node w target))) p target ((a, b) ∷ cs)
link h p a b target [] (q, e, nz, at, fr, end) =
    (b, nz, at ∙ ap (λ t. some (node b t)) end, (target, e, nz, rw (==-refl a), tt, refl))
link h p a b target ((x, y) ∷ cs) (q, e, nz, at, fr, rest) =
    let (w, lz, last, chain) = link h q x y target cs rest in
    (w, lz, last, (q, e, nz, rw (ne→== a (last_addr x cs) (Fresh-last a x y cs fr)) at, fr, chain))
