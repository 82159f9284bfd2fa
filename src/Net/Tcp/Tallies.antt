-- ===== src/Net/Tcp/Tallies.antt =====
-- The buffers that a log tells of, and what of them is still in a queue.
use xhnet.Common.{ℕ, ◌≡◌, refl, sym, ◌∙◌, ap, List, [], ◌∷◌, ◌++◌, append-nil, append_assoc}
use xhnet.Net.Tcp.{Event, on_send, on_recv, asked_send, asked_recv, tail}

abbrev pub collect : (Event → List ℕ) → List Event → List ℕ
collect f [] = []
collect f (e ∷ es) = f e ++ collect f es

pub collect-append :
    (f : Event → List ℕ) (es fs : List Event) → collect f (es ++ fs) ≡ collect f es ++ collect f fs
collect-append f [] fs = refl
collect-append f (e ∷ es) fs =
    ap (λ l. f e ++ l) (collect-append f es fs)
    ∙ sym (append_assoc (f e) (collect f es) (collect f fs))

abbrev pub add : List Event → Event → List Event
add es e = es ++ (e ∷ [])

pub collect-none :
    (f : Event → List ℕ) (es : List Event) (e : Event)
    → f e ≡ []
    → collect f (add es e) ≡ collect f es
collect-none f es e h =
    collect-append f es (e ∷ []) ∙ ap (λ l. collect f es ++ (l ++ [])) h ∙ append-nil (collect f es)

pub collect-one :
    (f : Event → List ℕ) (es : List Event) (e : Event) (b : ℕ)
    → f e ≡ b ∷ []
    → collect f (add es e) ≡ collect f es ++ (b ∷ [])
collect-one f es e b h = collect-append f es (e ∷ []) ∙ ap (λ l. collect f es ++ (l ++ [])) h

abbrev pub asked_send_of : Event → List ℕ
asked_send_of (asked_send b) = b ∷ []
asked_send_of _ = []

abbrev pub answered_send_of : Event → List ℕ
answered_send_of (on_send err b) = b ∷ []
answered_send_of _ = []

abbrev pub asked_recv_of : Event → List ℕ
asked_recv_of (asked_recv b) = b ∷ []
asked_recv_of _ = []

abbrev pub answered_recv_of : Event → List ℕ
answered_recv_of (on_recv err b) = b ∷ []
answered_recv_of _ = []

-- The buffers of the accepted calls of `Async_Send`, those that the user has been told of by
-- `On_Send`, and the same for what is received.
abbrev pub asked_sends : List Event → List ℕ
asked_sends = collect asked_send_of

abbrev pub answered_sends : List Event → List ℕ
answered_sends = collect answered_send_of

abbrev pub asked_recvs : List Event → List ℕ
asked_recvs = collect asked_recv_of

abbrev pub answered_recvs : List Event → List ℕ
answered_recvs = collect answered_recv_of

-- The queue begins with the buffers `now` that the user is just being told of.
pub record Tallies (now queue answered asked : List ℕ) : Type 0 where
  pub rest : List ℕ
  pub queued : queue ≡ now ++ rest
  pub all : answered ++ rest ≡ asked

module _ {queue answered asked : List ℕ} where
  pub Tallies-asked :
      (b : ℕ) {now : List ℕ}
      → Tallies now queue answered asked
      → Tallies now (queue ++ (b ∷ [])) answered (asked ++ (b ∷ []))
  Tallies-asked b {now = now} h = record {
    rest = h.rest ++ (b ∷ []);
    queued = ap (λ l. l ++ (b ∷ [])) h.queued ∙ append_assoc now h.rest (b ∷ []);
    all = sym (append_assoc answered h.rest (b ∷ [])) ∙ ap (λ l. l ++ (b ∷ [])) h.all;
  }

  pub Tallies-answered :
      (b : ℕ) (bs : List ℕ)
      → queue ≡ b ∷ bs
      → Tallies [] queue answered asked
      → Tallies (b ∷ []) queue (answered ++ (b ∷ [])) asked
  Tallies-answered b bs e h = record {
    rest = bs;
    queued = e;
    all = append_assoc answered (b ∷ []) bs ∙ ap (λ l. answered ++ l) (sym e ∙ h.queued) ∙ h.all;
  }

  pub Tallies-popped :
      (b : ℕ) → Tallies (b ∷ []) queue answered asked → Tallies [] (tail queue) answered asked
  Tallies-popped b h = record { rest = h.rest; queued = ap tail h.queued; all = h.all }
