-- ===== src/Message/Client/Counts.antt =====
-- The references that a client takes to itself, and a `Close` that comes too soon.
use xhnet.Common.{
  ℕ, suc, ne→==, ◌≡◌, refl, sym, subst, Bool, true, false, Option, none, some, List, [], ◌∷◌, ◌++◌,
  arith, length, length-append, if◌then◌else◌,
}
use xhnet.IoBuffer.{IoBuffer, Run, ok, overflow, fault}
use xhnet.IoBuffer.Scalar.{Host}
use xhnet.Message.Head.{MessageHead, decode_header}
use xhnet.Message.Packet.{Pools, new_iobuffer, pack, send_length}
use xhnet.Message.Reader.{and_then}
use xhnet.Message.Client.{
  Client, Post, post_connect, post_close, post_send, connect, close, send, postin_connect,
  postin_close, postin_send, on_connect, on_recv, on_close, on_timer, async_recv, async_send, give,
  handed, send_in, got_head, reset_socket, is_ok, new_client, want, scs_closed, scs_conneting,
  scs_conneted, told_connect, told_message, reconnect, timeout, post, release,
}
use xhnet.Message.Client.Steps.{
  Step, step, steps, run_first, call_connect, call_close, call_send, run_post, connected, received,
  socket_closed, ticked,
}

-- It has one reference for each function that waits.
abbrev IsCounted : Client → Type 0
IsCounted c = c.holds ≡ length c.posted

abbrev Counted : Option Client → Type 0
Counted none = Unit
Counted (some c) = IsCounted c

choose {ℓ} :
    {A : Type ℓ} (P : A → Type 0) (test : Bool) (c d : A) → P c → P d → P (if test then c else d)
choose P true c d h k = h
choose P false c d h k = k

-- A reference is taken with each post.
post-IsCounted : (p : Post) (c : Client) → IsCounted c → IsCounted (post p c)
post-IsCounted p c e = omega (arith, e, length-append c.posted (p ∷ []))

connect-IsCounted :
    (host : List ℕ) (port : ℕ) (c : Client) → IsCounted c → IsCounted (connect host port c).1
unfolding connect
connect-IsCounted host port c e = ground (arith, e, post-IsCounted (post_connect host port) c e)

close-IsCounted : (c : Client) → IsCounted c → IsCounted (close c)
unfolding close
close-IsCounted c e = ground (arith, e, post-IsCounted post_close c e)

send-IsCounted :
    (head : MessageHead) (msg : Option IoBuffer) (c : Client)
    → IsCounted c
    → IsCounted (send head msg c).1
unfolding send
send-IsCounted head none c e = e
send-IsCounted head (some msg) c e = ground (arith, e, post-IsCounted (post_send head msg) c e)

give-IsCounted : (c : Client) (o : Option IoBuffer) → IsCounted c → IsCounted (give c o)
give-IsCounted c none e = e
give-IsCounted c (some b) e = e

async_recv-IsCounted : (pools : Pools) (c : Client) → IsCounted c → IsCounted (async_recv pools c)
unfolding async_recv
async_recv-IsCounted pools c e =
    choose IsCounted (is_ok c) _ _ (give-IsCounted c (new_iobuffer pools (want c)) e) e

handed-Counted : (c : Client) (r : Run Bool) → IsCounted c → Counted (handed c r)
handed-Counted c (ok true b) e = e
handed-Counted c (ok false b) e = e
handed-Counted c (overflow b) e = tt
handed-Counted c fault e = tt

send_in-Counted :
    (h : Host) (head : MessageHead) (buffer : IoBuffer) (c : Client) (o : Option IoBuffer)
    → IsCounted c
    → Counted (send_in h head buffer c o)
send_in-Counted h head buffer c none e = e
send_in-Counted h head buffer c (some b) e = handed-Counted c (pack h head buffer b) e

async_send-Counted :
    (h : Host) (pools : Pools) (head : MessageHead) (buffer : IoBuffer) (c : Client)
    → IsCounted c
    → Counted (async_send h pools head buffer c)
unfolding async_send
async_send-Counted h pools head buffer c e =
    choose Counted (is_ok c) _ _
      (send_in-Counted h head buffer c (new_iobuffer pools (send_length buffer)) e) e

reset_socket-IsCounted : (o : Option ℕ) (c : Client) → IsCounted c → IsCounted (reset_socket o c)
unfolding reset_socket
reset_socket-IsCounted none c e = e
reset_socket-IsCounted (some tag) c e = e

got_head-Counted :
    (pools : Pools) (c : Client) (r : Run (Bool × MessageHead))
    → IsCounted c
    → Counted (got_head pools c r)
unfolding reset_socket got_head
got_head-Counted pools c (ok (true, head) b) e =
    async_recv-IsCounted pools (record c { recvhead = head; brecvhead = false }) e
got_head-Counted pools c (ok (false, head) b) e =
    reset_socket-IsCounted (if pools.object then some pools.tag else none)
      (record c { recvhead = head }) e
got_head-Counted pools c (overflow b) e = tt
got_head-Counted pools c fault e = tt

postin_connect-IsCounted :
    (ips : List (List ℕ)) (host : List ℕ) (port : ℕ) (c : Client)
    → c.holds ≡ suc (length c.posted)
    → IsCounted (postin_connect ips host port c)
unfolding postin_connect
postin_connect-IsCounted [] host port c e = ground (arith, e)
postin_connect-IsCounted (ip ∷ ips) host port c e = ground (arith, e)

run_first-Counted :
    (h : Host) (pools : Pools) (ips : List (List ℕ)) (ps : List Post) (c : Client)
    → c.posted ≡ ps
    → c.holds ≡ length ps
    → Counted (run_first h pools ips ps c)
unfolding postin_close postin_send
run_first-Counted h pools ips [] c q e = rw q e
run_first-Counted h pools ips (post_connect host port ∷ ps) c q e =
    postin_connect-IsCounted ips host port (record c { posted = ps }) e
run_first-Counted h pools ips (post_close ∷ ps) c q e = omega (arith, e)
run_first-Counted h pools ips (post_send head buffer ∷ ps) c q e =
    async_send-Counted h pools head buffer (release (record c { posted = ps })) (omega (arith, e))

reconnect-IsCounted : (ips : List (List ℕ)) (c : Client) → IsCounted c → IsCounted (reconnect ips c)
unfolding reconnect
reconnect-IsCounted [] c e = ground (arith, e)
reconnect-IsCounted (ip ∷ ips) c e = ground (arith, e)

on_timer-IsCounted :
    (ips : List (List ℕ)) (timerid : ℕ) (c : Client)
    → IsCounted c
    → IsCounted (on_timer ips timerid c)
unfolding on_timer timeout
on_timer-IsCounted ips timerid c e = ground (arith, e, reconnect-IsCounted ips c e)

on_connect-IsCounted :
    (pools : Pools) (failed : Bool) (c : Client)
    → IsCounted c
    → IsCounted (on_connect pools failed c)
unfolding on_connect
on_connect-IsCounted pools true c e = e
on_connect-IsCounted pools false c e =
    async_recv-IsCounted pools
      (record c { status = scs_conneted; did = c.did ++ (told_connect ∷ []); brecvhead = true }) e

on_recv-Counted :
    (h : Host) (pools : Pools) (failed : Bool) (buffer : IoBuffer) (c : Client)
    → IsCounted c
    → Counted (on_recv h pools failed buffer c)
unfolding on_recv
on_recv-Counted h pools true buffer c e = e
on_recv-Counted h pools false buffer c e =
    choose Counted c.brecvhead _ _ (got_head-Counted pools c (decode_header h c.recvhead buffer) e)
      (async_recv-IsCounted pools
        (record c { did = c.did ++ (told_message c.recvhead buffer ∷ []); brecvhead = true }) e)

step-Counted : (h : Host) (x : Step) (c : Client) → IsCounted c → Counted (step h x c)
unfolding step on_close
step-Counted h (call_connect host port) c e = connect-IsCounted host port c e
step-Counted h call_close c e = close-IsCounted c e
step-Counted h (call_send head msg) c e = send-IsCounted head msg c e
step-Counted h (run_post pools ips) c e = run_first-Counted h pools ips c.posted c refl e
step-Counted h (connected pools failed) c e = on_connect-IsCounted pools failed c e
step-Counted h (received pools failed buffer) c e = on_recv-Counted h pools failed buffer c e
step-Counted h socket_closed c e = e
step-Counted h (ticked ips timerid) c e = on_timer-IsCounted ips timerid c e

steps-Counted :
    (h : Host) (xs : List Step) (o : Option Client) → Counted o → Counted (and_then o (steps h xs))
unfolding steps
steps-Counted h xs none e = tt
steps-Counted h [] (some c) e = e
steps-Counted h (x ∷ xs) (some c) e = steps-Counted h xs (step h x c) (step-Counted h x c e)

-- In any run of a new client that does not fail, the references that it has taken to itself and not
-- released are as many as the functions that it has posted and that have not run.
pub steps-holds :
    (h : Host) (xs : List Step) (head : MessageHead) (port reconnect_id timeout_id timeout_ms : ℕ)
    (c : Client)
    → steps h xs (new_client head port reconnect_id timeout_id timeout_ms) ≡ some c
    → c.holds ≡ length c.posted
unfolding new_client
steps-holds h xs head port reconnect_id timeout_id timeout_ms c q =
    subst Counted q
      (steps-Counted h xs (some (new_client head port reconnect_id timeout_id timeout_ms)) refl)

-- It is connecting, and no function waits that could end this.
abbrev pub IsConnecting : Option Client → Type 0
IsConnecting none = ⊥
IsConnecting (some c) = (c.busing ≡ true) × (c.status ≡ scs_conneting) × (c.posted ≡ [])

-- A client that is closed and has nothing posted accepts a `Connect`, and a `Close` right after it
-- is lost: when the posted function has run, with a host that has an address, the client is
-- connecting and nothing is posted.
pub early_close-lost :
    (h : Host) (pools : Pools) (x : ℕ) (name : List ℕ) (port : ℕ) (ip : List ℕ)
    (ips : List (List ℕ)) (c : Client)
    → c.busing ≡ false
    → c.status ≡ scs_closed
    → c.posted ≡ []
    → IsConnecting (
        steps h
          (call_connect (x ∷ name) (suc port) ∷ call_close ∷ run_post pools (ip ∷ ips) ∷ [])
          c)
unfolding steps step connect close postin_connect
early_close-lost h pools x name port ip ips c b e q =
    let xs : List Step =
      call_connect (x ∷ name) (suc port) ∷ call_close ∷ run_post pools (ip ∷ ips) ∷ [] in
    let c' = record c { busing = false; status = scs_closed; posted = [] } in
    let same : c ≡ c' = λ i. record c { busing = b i; status = e i; posted = q i } in
    subst (λ k. IsConnecting (steps h xs k)) (sym same)
      (rw (ne→== (suc port) 0 (λ k. omega (arith, k))) (refl, refl, refl))
