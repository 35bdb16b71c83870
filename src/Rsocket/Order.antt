-- ===== src/Rsocket/Order.antt =====
-- The messages of a connection in the order in which the peer announced them.
pub mod Resolve
pub mod Receive
pub mod Send
pub mod Calls
use ffrdma.Common.{
  ℕ, ◌≡◌, refl, sym, ap, ◌∙◌, Bool, false, List, [], ◌∷◌, ◌++◌, map, append_assoc, Sublist, ℤ, pos,
  ◌==◌, if◌then◌else◌,
}
use ffrdma.Mpi.Machine.{AMessage, Bytes}
use ffrdma.Rsocket.Handle.{to_int}
use ffrdma.Rsocket.Machine.{MetaData, metadata_normal, Wc, Sock}
use ffrdma.Rsocket.Stable.{IsStable}

-- What a receiver sees of a message.
pub record Content : Type 0 where
  pub flag : ℕ
  pub bytes : Bytes
  pub size : ℤ

abbrev pub content : AMessage → Content
content m = record { flag = m.flag; bytes = m.buffer; size = m.length }

-- The message that a normal metadata announces, in the peer's memory.
abbrev pub announced_by : (ℕ → ℕ → Bytes) → MetaData → Content
announced_by remote md = record {
  flag = md.flag;
  bytes = (if md.length == 0 then [] else remote md.msg_addr md.length);
  size = to_int md.length;
}

-- A completion that announces a message: a good one of a normal metadata.
abbrev pub announcement : (ℕ → ℕ → Bytes) → Wc → List Content
announcement remote wc =
    if wc.status == 0
    then (if wc.md_buffer.type == metadata_normal
        then announced_by remote wc.md_buffer ∷ []
        else [])
    else []

abbrev pub announced : (ℕ → ℕ → Bytes) → List Wc → List Content
announced remote [] = []
announced remote (wc ∷ wcs) = announcement remote wc ++ announced remote wcs

pub announced-append :
    (remote : ℕ → ℕ → Bytes) (a b : List Wc)
    → announced remote (a ++ b) ≡ announced remote a ++ announced remote b
announced-append remote [] b = refl
announced-append remote (wc ∷ wcs) b =
    ap (λ l. announcement remote wc ++ l) (announced-append remote wcs b)
    ∙ sym (append_assoc (announcement remote wc) (announced remote wcs) (announced remote b))

-- More completions arrive behind those that wait.
pub arrived_grows :
    (remote : ℕ → ℕ → Bytes) (s : Sock) (seen pending : List Content)
    → seen ++ (pending ++ announced remote s.wr_queue) ≡ announced remote s.arrived
    → (wcs : List Wc)
    → seen ++ (pending ++ announced remote (s.wr_queue ++ wcs))
      ≡ announced remote (s.arrived ++ wcs)
arrived_grows remote s seen pending e wcs =
    let a : List Content = announced remote s.wr_queue in
    let w : List Content = announced remote wcs in
    ap (λ l. seen ++ (pending ++ l)) (announced-append remote s.wr_queue wcs)
    ∙ ap (λ l. seen ++ l) (sym (append_assoc pending a w))
    ∙ sym (append_assoc seen (pending ++ a) w)
    ∙ ap (λ l. l ++ w) e
    ∙ sym (announced-append remote s.arrived wcs)

-- The messages taken from recv_queue, `taken`, and those still in it are a part, in order, of the
-- messages announced by the completions `seen` that have been handled; then come `pending`, in hand,
-- and those of wr_queue. They are all of `seen` while the connection is not closed, unless `lossy`.
pub record IsOrdered (remote : ℕ → ℕ → Bytes) (taken : List AMessage) (pending : List Content)
    (lossy : Bool) (s : Sock) : Type 0 where
  pub memory : s.remote ≡ remote
  pub seen : List Content
  pub split : seen ++ (pending ++ announced remote s.wr_queue) ≡ announced remote s.arrived
  pub part : Sublist (map content (taken ++ s.recv_queue)) seen
  pub whole : lossy ≡ false → s.close_flag ≡ false → map content (taken ++ s.recv_queue) ≡ seen

module _ (remote : ℕ → ℕ → Bytes) (taken : List AMessage) (pending : List Content)
    (lossy : Bool) where
  abbrev Here : Sock → Type 0
  Here = IsOrdered remote taken pending lossy

  pub IsOrdered-IsStable : IsStable Here
  IsOrdered-IsStable = record {
    checks = λ s l h. record {
      memory = h.memory;
      seen = h.seen;
      split = h.split;
      part = h.part;
      whole = h.whole;
    };
    locks = λ s held rest e h. record {
      memory = h.memory;
      seen = h.seen;
      split = h.split;
      part = h.part;
      whole = h.whole;
    };
    next = λ s n h. record {
      memory = h.memory;
      seen = h.seen;
      split = h.split;
      part = h.part;
      whole = h.whole;
    };
    mrs = λ s n h. record {
      memory = h.memory;
      seen = h.seen;
      split = h.split;
      part = h.part;
      whole = h.whole;
    };
    posted = λ s l h. record {
      memory = h.memory;
      seen = h.seen;
      split = h.split;
      part = h.part;
      whole = h.whole;
    };
    ack_posted = λ s md h. record {
      memory = h.memory;
      seen = h.seen;
      split = h.split;
      part = h.part;
      whole = h.whole;
    };
    event = λ s e rest eq h. record {
      memory = h.memory;
      seen = h.seen;
      split = arrived_grows remote s h.seen pending h.split _;
      part = h.part;
      whole = h.whole;
    };
    failed_event = λ s rest eq h. record {
      memory = h.memory;
      seen = h.seen;
      split = h.split;
      part = h.part;
      whole = h.whole;
    };
  }
