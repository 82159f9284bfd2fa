-- ===== src/Net/Tcp/Closing.antt =====
-- What `on_inter_close` tells the user and what it leaves behind.
use xhnet.Common.{Bool, true, false, ◌≡◌, refl, sym, subst, [], ◌++◌, arith, none}
use xhnet.Net.Tcp.{TcpError, status_null, Socket, is_null, is_peer}
use xhnet.Net.Tcp.Calls.{User}
use xhnet.Net.Tcp.Close.{close_handle, close_peer, finish_close, on_inter_close}
use xhnet.Net.Tcp.Drain.{close_events, release_all, close_peer-refusing}

pub record IsClosed (err : TcpError) (connecting : Bool) (s t : Socket) : Type 0 where
  -- the callbacks, in their order
  pub told : t.log ≡ s.log ++ close_events err connecting s
  pub status_closed : t.status ≡ status_null
  pub handle_closed : t.handle ≡ none
  pub closed_one : t.closed ≡ close_handle s.handle s.closed
  pub registered_closed : s.has_io ≡ true → t.registered ≡ false
  pub no_send : t.wait_send ≡ []
  pub no_recv : t.wait_recv ≡ []
  pub kind_kept : t.kind ≡ s.kind
  pub callback_kept : t.has_cb ≡ s.has_cb
  pub references : t.held ≡ release_all s.wait_recv (release_all s.wait_send s.held)

close_peer_of : User → TcpError → Bool → Socket → Socket
close_peer_of user err connecting s =
    close_peer user err connecting (record s { status = status_null })

on_inter_close-peer :
    (user : User) (err : TcpError) (connecting : Bool) (s : Socket)
    → is_null s.status ≡ false
    → is_peer s.kind ≡ true
    → s.has_cb ≡ true
    → on_inter_close user err connecting s ≡ finish_close (close_peer_of user err connecting s)
unfolding on_inter_close close_peer_of
on_inter_close-peer user err connecting s o p c = ground arith

-- For an accepter or a connecter with a callback whose status is not null, `on_inter_close` tells
-- the user of a failed connect where it is one, then of each buffer that waits to be sent, then of
-- each that waits to be filled, then of the close, whatever the user does meanwhile. It closes the
-- socket, forgets it at the server, empties both queues and releases their buffers.
pub on_inter_close_lem :
    (user : User) (err : TcpError) (connecting : Bool) (s : Socket)
    → is_null s.status ≡ false
    → is_peer s.kind ≡ true
    → s.has_cb ≡ true
    → IsClosed err connecting s (on_inter_close user err connecting s)
unfolding finish_close close_peer_of
on_inter_close_lem user err connecting s o p c =
    let c' = close_peer_of user err connecting s in
    let e =
      close_peer-refusing user err connecting (record s { status = status_null })
        (record { is_null = refl; has_cb = c }) in
    let e' = on_inter_close-peer user err connecting s o p c in
    subst (IsClosed err connecting s) (sym e') (
      subst (λ x. IsClosed err connecting s (finish_close x)) (sym e)
        (record {
          told = ground arith;
          status_closed = ground arith;
          handle_closed = ground arith;
          closed_one = ground arith;
          registered_closed = ground arith;
          no_send = ground arith;
          no_recv = ground arith;
          kind_kept = ground arith;
          callback_kept = ground arith;
          references = ground arith;
        }))
