-- ===== src/Message/Listener/Counts.antt =====
-- The references to a listener.
use xhnet.Common.{ne→==, ℕ, suc, ◌≡◌, refl, sym, subst, true, false, List, [], ◌∷◌, arith}
use xhnet.Message.Listener.{
  Listener, sls_closed, listen, close, on_listen, on_close, postin_listen, postin_close, release,
  taken,
}

-- A listener that listens: the call, the posted function with success, and `On_Listen`.
abbrev pub listened : List ℕ → ℕ → Listener → Listener
listened ip port l = on_listen false (postin_listen true true ip port (taken (listen ip port l).1))

-- What `Close` does to it: the posted function, and the end of the socket, which calls `On_Close`
-- and releases its callback.
abbrev pub closed : Listener → Listener
closed l = release (on_close (postin_close (taken (close l))))

-- A listener with one reference, that of its owner, has two while it listens after a `Listen` with
-- success, and after its `Close` and the end of its socket it is gone.
pub close-gone :
    (x : ℕ) (ip : List ℕ) (port : ℕ) (l : Listener)
    → l.status ≡ sls_closed
    → l.posted ≡ []
    → l.live ≡ true
    → l.refs ≡ 1
    → ((listened (x ∷ ip) (suc port) l).refs ≡ 2)
      × ((listened (x ∷ ip) (suc port) l).live ≡ true)
      × ((closed (listened (x ∷ ip) (suc port) l)).live ≡ false)
unfolding listen close on_listen on_close postin_listen postin_close
close-gone x ip port l c e a r =
    let l' = record l { status = sls_closed; posted = []; live = true; refs = 1 } in
    let same : l ≡ l' = λ i. record l { status = c i; posted = e i; live = a i; refs = r i } in
    subst
      (λ k.
        ((listened (x ∷ ip) (suc port) k).refs ≡ 2)
        × ((listened (x ∷ ip) (suc port) k).live ≡ true)
        × ((closed (listened (x ∷ ip) (suc port) k)).live ≡ false))
      (sym same) (rw (ne→== (suc port) 0 (λ q. omega (arith, q))) (refl, refl, refl))
