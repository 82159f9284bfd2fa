-- ===== src/Message/Listener.antt =====
-- `CTcpSocketListener` of net-qyfh/socketlistener.h, and the count of the references to it. The
-- user's callbacks, the socket and `m_io` are there.
pub mod Counts
use xhnet.Common.{
  ℕ, ◌+◌, ◌-◌, Bool, true, false, not, ◌&&◌, ◌||◌, ◌==◌, List, [], ◌∷◌, ◌++◌, if◌then◌else◌,
}

pub data SlStatus : Type 0 where
  sls_closed sls_listening sls_listened : SlStatus

-- What the listener does: to its socket, and the callbacks of its user. An accepted socket is its
-- number.
pub data Action : Type 0 where
  init_listener fini_socket : Action
  listen_socket : List ℕ → ℕ → Action
  told_listen : Bool → Action
  told_accept : ℕ → Action
  told_close : Action

pub data Post : Type 0 where
  post_listen : List ℕ → ℕ → Post
  post_close : Post

pub record Listener : Type 0 where
  pub status : SlStatus
  pub posted : List Post
  -- `m_ref`, and whether the object still exists
  pub refs : ℕ
  pub live : Bool
  pub did : List Action

-- The constructor, with the reference of `new`.
unfoldable pub new_listener : Listener
new_listener = record { status = sls_closed; posted = []; refs = 1; live = true; did = [] }

abbrev pub is_closed : SlStatus → Bool
is_closed sls_closed = true
is_closed _ = false

abbrev pub act : List Action → Listener → Listener
act k l = record l { did = l.did ++ k }

abbrev pub retain : Listener → Listener
retain l = record l { refs = l.refs + 1 }

-- The last reference deletes the object.
abbrev pub release : Listener → Listener
release l = record l { refs = l.refs - 1; live = l.live && not (l.refs == 1) }

abbrev is_nil : List ℕ → Bool
is_nil [] = true
is_nil (x ∷ xs) = false

unfoldable pub listen : List ℕ → ℕ → Listener → Bool × Listener
listen ip port l =
    if is_nil ip || (port == 0)
    then (false, l)
    else if not (is_closed l.status)
    then (false, l)
    else (true, retain (record l { posted = l.posted ++ (post_listen ip port ∷ []) }))

-- It posts without a `Retain`.
unfoldable pub close : Listener → Listener
close l = record l { posted = l.posted ++ (post_close ∷ []) }

unfoldable pub is_ok : Listener → Bool
is_ok l = elim l.status [ sls_listened ↦ true | _ ↦ false ]

unfoldable pub on_listen : Bool → Listener → Listener
on_listen failed l =
    if failed
    then act (told_listen false ∷ []) l
    else record l { status = sls_listened; did = l.did ++ (told_listen true ∷ []) }

unfoldable pub on_accept : ℕ → Listener → Listener
on_accept socket l = act (told_accept socket ∷ []) l

unfoldable pub on_close : Listener → Listener
on_close l = record l { status = sls_closed; did = l.did ++ (told_close ∷ []) }

-- The server takes the first function from its queue.
abbrev pub taken : Listener → Listener
taken l = record l { posted = elim l.posted [ [] ↦ [] | p ∷ ps ↦ ps ] }

-- What `guard_onfailed` does.
abbrev pub failed_listen : List Action
failed_listen = told_listen false ∷ told_close ∷ []

-- `init` and `listening` are what `Init_Listener` and `Listen` of the socket return. The socket takes
-- a reference to its callback in `Init_Listener`.
unfoldable pub postin_listen : Bool → Bool → List ℕ → ℕ → Listener → Listener
postin_listen init listening ip port l =
    if not (is_closed l.status)
    then release (act failed_listen l)
    else if not init
    then release (act (init_listener ∷ failed_listen) l)
    else if not listening
    then release (act (init_listener ∷ listen_socket ip port ∷ failed_listen) (retain l))
    else release (
        retain (record l {
          status = sls_listening;
          did = l.did ++ (init_listener ∷ listen_socket ip port ∷ []);
        }))

unfoldable pub postin_close : Listener → Listener
postin_close l = release (act (fini_socket ∷ []) l)
