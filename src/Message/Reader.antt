-- ===== src/Message/Reader.antt =====
-- How the bytes of a connection reach an object that keeps a buffer in `Async_Recv`: what
-- `on_inter_recv` of source/net/impl_tcpsocket.cpp does with the bytes that `Net.Tcp` only counts.
pub mod Laws
use xhnet.Common.{
  ℕ, zero, suc, ◌≡◌, Option, none, some, List, [], ◌∷◌, ◌++◌, ◌==◌, if◌then◌else◌, ltb, length,
  take, drop,
}
use xhnet.IoBuffer.{IoBuffer}
use xhnet.IoBuffer.Queue.{room, stored}

abbrev pub and_then {ℓ} : {S : Type ℓ} → Option S → (S → Option S) → Option S
and_then none k = none
and_then (some s) k = k s

-- The buffers that wait, and `On_Recv` of a buffer that is full; `none` is a state that has failed.
pub record Reader {ℓ} (S : Type ℓ) : Type ℓ where
  pub wait : S → List IoBuffer
  pub set_wait : List IoBuffer → S → S
  pub on_recv : IoBuffer → S → Option S
  pub wait-set_wait : (l : List IoBuffer) (s : S) → wait (set_wait l s) ≡ l
  pub set_wait-set_wait : (l m : List IoBuffer) (s : S) → set_wait l (set_wait m s) ≡ set_wait l s

-- What comes of bytes that arrive: all are read; no buffer waits, and the rest of them stays with the
-- platform; a `recv` returned 0, which the socket takes for a close by the peer; `On_Recv` failed; or
-- the fuel was not enough.
pub data Outcome {ℓ} (S : Type ℓ) : Type ℓ where
  going : S → Outcome S
  unread : List ℕ → S → Outcome S
  closed_by_peer : S → Outcome S
  failed : Outcome S
  out_of_fuel : Outcome S

abbrev pub on_success {ℓ} : {S : Type ℓ} → Option S → (S → Outcome S) → Outcome S
on_success none k = failed
on_success (some s) k = k s

-- More bytes arrive, and are read if nothing has stopped the socket.
abbrev pub and_more {ℓ} : {S : Type ℓ} → List ℕ → Outcome S → (S → Outcome S) → Outcome S
and_more q (going s) k = k s
and_more q (unread p s) k = unread (p ++ q) s
and_more q (closed_by_peer s) k = closed_by_peer s
and_more q failed k = failed
and_more q out_of_fuel k = out_of_fuel

abbrev pub concat : List (List ℕ) → List ℕ
concat [] = []
concat (p ∷ ps) = p ++ concat ps

module _ {ℓ} {S : Type ℓ} (r : Reader S) where
  -- The bytes `p` are put into the first buffer, which has room for them.
  abbrev pub receive : List ℕ → IoBuffer → List IoBuffer → S → Option S
  receive p b bs s =
      if room b == length p
      then r.on_recv (stored p b) (r.set_wait bs s)
      else some (r.set_wait (stored p b ∷ bs) s)

  abbrev pub at_most : ℕ → List ℕ → ℕ
  at_most n p = if ltb n (length p) then n else length p

  -- `recv` of as many bytes as the first buffer has room for. `more` reads the others.
  abbrev pub recv_first : (List ℕ → S → Outcome S) → List ℕ → List IoBuffer → S → Outcome S
  recv_first more p [] s = unread p s
  recv_first more p (b ∷ bs) s =
      let n = at_most (room b) p in
      if n == 0 then closed_by_peer s else on_success (receive (take n p) b bs s) (more (drop n p))

  -- The socket reads what has arrived. The fuel bounds the calls of `recv`.
  unfoldable pub take_in : ℕ → List ℕ → S → Outcome S
  take_in fuel [] s = going s
  take_in zero (x ∷ p) s = out_of_fuel
  take_in (suc fuel) (x ∷ p) s = recv_first (take_in fuel) (x ∷ p) (r.wait s) s

  -- The bytes arrive in pieces.
  unfoldable pub feed : List (List ℕ) → S → Outcome S
  unfolding take_in
  feed [] s = going s
  feed (p ∷ ps) s = and_more (concat ps) (take_in (length p) p s) (feed ps)
