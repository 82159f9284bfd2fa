-- ===== src/Message/Client/Steps.antt =====
-- The runs of a client: the calls of its user, the posted functions, which the server runs in their
-- order, and the callbacks of its socket and its timers.
use xhnet.Common.{ℕ, Bool, Option, some, List, [], ◌∷◌}
use xhnet.IoBuffer.{IoBuffer}
use xhnet.IoBuffer.Scalar.{Host}
use xhnet.Message.Head.{MessageHead}
use xhnet.Message.Packet.{Pools}
use xhnet.Message.Reader.{and_then}
use xhnet.Message.Client.{
  Client, Post, post_connect, post_close, post_send, connect, close, send, postin_connect,
  postin_close, postin_send, on_connect, on_recv, on_close, on_timer,
}

-- A step, with what the pools give and `Resolve_DNS` answers in it.
pub data Step : Type 0 where
  call_connect : List ℕ → ℕ → Step
  call_close : Step
  call_send : MessageHead → Option IoBuffer → Step
  run_post : Pools → List (List ℕ) → Step
  connected : Pools → Bool → Step
  received : Pools → Bool → IoBuffer → Step
  socket_closed : Step
  ticked : List (List ℕ) → ℕ → Step

-- The first posted function, which has been taken from the queue.
abbrev pub run_first : Host → Pools → List (List ℕ) → List Post → Client → Option Client
run_first h pools ips [] c = some c
run_first h pools ips (post_connect host port ∷ ps) c =
    some (postin_connect ips host port (record c { posted = ps }))
run_first h pools ips (post_close ∷ ps) c = some (postin_close (record c { posted = ps }))
run_first h pools ips (post_send head buffer ∷ ps) c =
    postin_send h pools head buffer (record c { posted = ps })

unfoldable pub step : Host → Step → Client → Option Client
unfolding connect close send postin_connect postin_close postin_send on_connect on_recv on_close
    on_timer
step h (call_connect host port) c = some (connect host port c).1
step h call_close c = some (close c)
step h (call_send head msg) c = some (send head msg c).1
step h (run_post pools ips) c = run_first h pools ips c.posted c
step h (connected pools failed) c = some (on_connect pools failed c)
step h (received pools failed buffer) c = on_recv h pools failed buffer c
step h socket_closed c = some (on_close c)
step h (ticked ips timerid) c = some (on_timer ips timerid c)

unfoldable pub steps : Host → List Step → Client → Option Client
unfolding step
steps h [] c = some c
steps h (x ∷ xs) c = and_then (step h x c) (steps h xs)
