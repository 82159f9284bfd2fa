-- ===== src/Message/Runs.antt =====
-- Runs of the message layer.
use xhnet.Common.{ℕ, zero, suc, ◌≡◌, refl, ap, true, false, some, List, [], ◌∷◌, arith, length}
use xhnet.IoBuffer.Scalar.{Host, windows, linux64}
use xhnet.Message.Head.{MessageHead}
use xhnet.Message.Packet.{Pools}
use xhnet.Message.Packet.Laws.{ample}
use xhnet.Message.Messages.{Message, IsMessage}
use xhnet.Message.Reader.{going, closed_by_peer, feed}
use xhnet.Message.Client.{
  Client, new_client, told_connect, told_message, postin_connect, postin_close, connect, close,
  scs_conneted,
}
use xhnet.Message.Client
use xhnet.Message.Client.Stream as ClientStream
use xhnet.Message.Client.Stream.{feed-client}
use xhnet.Message.Client.Steps.{Step, steps, call_connect, call_close, run_post, connected}
use xhnet.Message.Client.Counts.{steps-holds, early_close-lost, IsConnecting}
use xhnet.Message.Server
use xhnet.Message.Server.{Server, new_server}
use xhnet.Message.Server.Stream as ServerStream
use xhnet.Message.Server.Stream.{feed-empty_message}
use xhnet.Message.Link.{Sending, delivered, run_sends, sent_all, told_messages}
use xhnet.Message.Listener
use xhnet.Message.Listener.{Listener}
use xhnet.Message.Listener.Counts.{close-gone, listened, closed}

abbrev unix : Host
unix = record { abi = linux64; big = false }

abbrev other : Host
other = record { abi = windows; big = true }

abbrev zeros : ℕ → List ℕ
zeros zero = []
zeros (suc n) = 0 ∷ zeros n

length-zeros : (n : ℕ) → length (zeros n) ≡ n
length-zeros zero = refl
length-zeros (suc n) = ap suc (length-zeros n)

abbrev pools : Pools
pools = ample zeros 0

abbrev no_head : MessageHead
no_head = record { msglen = 0; msgid = 0 }

abbrev some_head : MessageHead
some_head = record { msglen = 2; msgid = 7 }

abbrev some_message : Message
some_message = record { head = some_head; body = 65 ∷ 66 ∷ [] }

some_message-IsMessage : IsMessage some_message
some_message-IsMessage = record {
  is_head = record { msglen_lt = omega arith; msgid_lt = omega arith };
  msglen = refl;
  some_body = omega arith;
}

abbrev some_client : Client
some_client = record {
  host = 104 ∷ [];
  port = 80;
  status = scs_conneted;
  busing = true;
  recvhead = no_head;
  brecvhead = true;
  timeout_ms = 100;
  reconnect_id = 1;
  timeout_id = 2;
  wait_recv = [];
  posted = [];
  holds = 0;
  did = [];
}

abbrev some_server : Server
some_server = record {
  socket = some 5;
  status = Server.sss_establishing;
  busing = true;
  recvhead = no_head;
  brecvhead = true;
  timeout_ms = 100;
  wait_recv = [];
  posted = [];
  holds = 0;
  did = [];
}

-- The message in three pieces, one of which has the end of the head and the start of the body.
abbrev some_pieces : List (List ℕ)
some_pieces = (2 ∷ []) ∷ (0 ∷ 7 ∷ 0 ∷ 0 ∷ 0 ∷ 65 ∷ []) ∷ (66 ∷ []) ∷ []

feed-client_example :
    feed (ClientStream.reader unix pools) some_pieces (Client.on_connect pools false some_client)
    ≡ going (
        ClientStream.ready unix zeros 0 (
          ClientStream.tell_all unix zeros 0
            (some_message ∷ [])
            (record some_client { did = told_connect ∷ [] })))
feed-client_example =
    feed-client unix zeros 0 length-zeros (some_message ∷ []) some_pieces some_client
      (some_message-IsMessage, tt) refl refl refl

feed-empty_message_example :
    feed
      (ServerStream.reader unix pools)
      ((0 ∷ 0 ∷ 7 ∷ 0 ∷ 0 ∷ 0 ∷ 1 ∷ []) ∷ [])
      (Server.on_connect pools false some_server)
    ≡ closed_by_peer (record some_server {
      status = Server.sss_established;
      recvhead = record { msglen = 0; msgid = 7 };
      brecvhead = false;
      wait_recv = record { bytes = []; read = 0; write = 0; biged = false; tag = 0 } ∷ [];
      did = Server.told_connect ∷ [];
    })
feed-empty_message_example =
    feed-empty_message unix zeros 0 length-zeros (record { msglen = 0; msgid = 7 }) 1 []
      ((0 ∷ 0 ∷ 7 ∷ 0 ∷ 0 ∷ 0 ∷ 1 ∷ []) ∷ []) some_server
      (record { msglen_lt = omega arith; msgid_lt = omega arith }) refl refl refl refl

abbrev some_sending : Sending
some_sending = record {
  head = some_head;
  buffer = record { bytes = 65 ∷ 66 ∷ 0 ∷ []; read = 0; write = 2; biged = false; tag = 0 };
}

delivered_example :
    (run_sends unix zeros 0 (some_sending ∷ []) some_client
      ≡ some (sent_all unix zeros 0 (some_sending ∷ []) some_client))
    × (feed
          (ServerStream.reader other pools)
          some_pieces
          (Server.on_connect pools false some_server)
        ≡ going (
            ServerStream.ready other zeros 0 (
              ServerStream.tell_all other zeros 0
                (some_message ∷ [])
                (record some_server { did = Server.told_connect ∷ [] }))))
    × (told_messages
          (ServerStream.tell_all other zeros 0
            (some_message ∷ [])
            (record some_server { did = Server.told_connect ∷ [] })).did
        ≡ some_message ∷ [])
unfolding Client.is_ok xhnet.Message.Packet.send_length
delivered_example =
    delivered unix other zeros zeros 0 0 (some_sending ∷ []) some_pieces some_client some_server
      length-zeros length-zeros
      (
        record {
          valid = record { read_le = omega arith; write_le = omega arith; small = omega arith };
          message = some_message-IsMessage;
          small = omega arith;
        },
        tt,
      )
      refl refl refl refl refl

abbrev some_steps : List Step
some_steps =
    call_connect (104 ∷ []) 80
    ∷ run_post pools ((1 ∷ []) ∷ [])
    ∷ connected pools false
    ∷ call_close
    ∷ []

abbrev closing_client : Client
closing_client = record {
  host = 104 ∷ [];
  port = 80;
  status = scs_conneted;
  busing = true;
  recvhead = no_head;
  brecvhead = true;
  timeout_ms = 100;
  reconnect_id = 1;
  timeout_id = 2;
  wait_recv = record { bytes = zeros 6; read = 0; write = 0; biged = false; tag = 0 } ∷ [];
  posted = Client.post_close ∷ [];
  holds = 1;
  did =
      Client.init_socket
      ∷ Client.connect_socket (1 ∷ []) 80
      ∷ Client.init_timer Client.reconnect_timer
      ∷ Client.wait_timer Client.reconnect_timer 10000
      ∷ Client.init_timer Client.timeout_timer
      ∷ Client.wait_timer Client.timeout_timer 100
      ∷ told_connect
      ∷ [];
}

some_steps-closing : steps unix some_steps (new_client no_head 0 1 2 50) ≡ some closing_client
unfolding steps new_client
some_steps-closing = refl

steps-holds_example : closing_client.holds ≡ length closing_client.posted
steps-holds_example = steps-holds unix some_steps no_head 0 1 2 50 closing_client some_steps-closing

abbrev closed_client : Client
closed_client = record {
  host = [];
  port = 0;
  status = Client.scs_closed;
  busing = false;
  recvhead = no_head;
  brecvhead = true;
  timeout_ms = 100;
  reconnect_id = 1;
  timeout_id = 2;
  wait_recv = [];
  posted = [];
  holds = 0;
  did = [];
}

early_close-lost_example : IsConnecting (
    steps unix
      (call_connect (104 ∷ []) 80 ∷ call_close ∷ run_post pools ((1 ∷ []) ∷ []) ∷ [])
      closed_client)
early_close-lost_example =
    early_close-lost unix pools 104 [] 79 (1 ∷ []) [] closed_client refl refl refl

abbrev some_listener : Listener
some_listener = record {
  status = Listener.sls_closed;
  posted = [];
  refs = 1;
  live = true;
  did = [];
}

close-gone_example :
    ((listened (49 ∷ []) 80 some_listener).refs ≡ 2)
    × ((listened (49 ∷ []) 80 some_listener).live ≡ true)
    × ((closed (listened (49 ∷ []) 80 some_listener)).live ≡ false)
close-gone_example = close-gone 49 [] 79 some_listener refl refl refl refl
