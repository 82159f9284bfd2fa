-- ===== src/Net/IoServer.antt =====
-- `CIOServer` of source/net/impl_ioserver.h and source/net/impl_ioserver.cpp: the queues of posted
-- functions, and the timer that runs them.
pub mod Order
pub mod Blocked
pub mod End
mod Runs
use xhnet.Net.Timer.{
  Clock, clock_null, clock_init, clock_begin, clock_common, clock_end, timer_real_fini,
  timer_real_wait,
}
use xhnet.Common.{ℕ, Bool, true, false, not, ◌&&◌, ◌||◌, List, [], ◌∷◌, ◌++◌, if◌then◌else◌}

-- A posted function: a function of a user or a socket, `CIOServer::real_fini`, and `real_fini` and
-- `real_wait` of the server's timer.
pub data Task : Type 0 where
  task : ℕ → Task
  fini_server fini_timer wait_timer : Task

pub record Server : Type 0 where
  -- whether `m_status` is `status_common`
  pub running : Bool
  pub binit : Bool
  -- the sockets and timers in the three maps
  pub members : List ℕ
  -- `m_postdata[m_curpost]`, and the other queue
  pub current : List Task
  pub other : List Task
  pub has_post : Bool
  -- `m_status` of `m_posttimer`
  pub clock : Clock
  -- the functions that have been posted, and those that have returned
  pub posted : List Task
  pub ran : List Task

-- What a function does: whether it throws, what it posts, with what other threads post meanwhile,
-- and the maps after it.
pub record Effect : Type 0 where
  pub throws : Bool
  pub posts : List Task
  pub members : List ℕ

-- What functions do, after those that have returned and with what is in the maps, and what `Fini` of
-- a socket or a timer posts.
pub record World : Type 0 where
  pub effect : List Task → List ℕ → ℕ → Effect
  pub posts_fini : ℕ → List Task

abbrev pub new_server : Server
new_server = record {
  running = false;
  binit = false;
  members = [];
  current = [];
  other = [];
  has_post = false;
  clock = clock_null;
  posted = [];
  ran = [];
}

unfoldable pub post : Task → Server → Server
post t s = record s {
  current = s.current ++ (t ∷ []);
  has_post = true;
  posted = s.posted ++ (t ∷ []);
}

unfoldable pub post_all : List Task → Server → Server
unfolding post
post_all [] s = s
post_all (t ∷ ts) s = post_all ts (post t s)

-- `Init`, of a server with an event base.
unfoldable pub init : Server → Bool × Server
unfolding post
init s = if s.running then (false, s) else (
  true,
  record (post wait_timer (record s { clock = clock_init })) { running = true; binit = true },
)

unfoldable pub fini : Server → Server
unfolding post
fini s = if not s.binit || not s.running then s else post fini_server s

-- `m_posttimer->Fini()`.
unfoldable pub timer_fini : Server → Server
unfolding post
timer_fini s = elim s.clock [ clock_null ↦ s | _ ↦ post fini_timer s ]

-- Whether a function throws, and the server after it.
unfoldable pub run : World → Task → Server → Bool × Server
unfolding post_all
run w (task n) s =
    let e = w.effect s.ran s.members n in
    (e.throws, record (post_all e.posts s) { members = e.members })
run w fini_server s =
    (false, if not s.binit || not s.running then s else record s { binit = false })
run w fini_timer s = (false, record s { clock = timer_real_fini s.clock })
run w wait_timer s = (false, record s { clock = timer_real_wait s.clock })

-- The loop over a queue. A function that throws ends it, and stays in front.
unfoldable pub drain : World → List Task → Server → Server
unfolding run
drain w [] s = record s { other = [] }
drain w (t ∷ ts) s =
    let (throws, s') = run w t s in
    let rest = drain w ts (record s' { ran = s'.ran ++ (t ∷ []) }) in
    if throws then record s' { other = t ∷ ts } else rest

abbrev pub finis : World → List ℕ → List Task
finis w [] = []
finis w (m ∷ ms) = w.posts_fini m ++ finis w ms

-- A round: `Fini` of all that is in the maps if the server is to end, the exchange of the queues,
-- and the loop.
unfoldable pub round : World → Server → Server
unfolding post_all drain
round w s =
    let t = if s.binit then s else post_all (finis w s.members) s in
    drain w t.current (record t { current = t.other; has_post = false })

abbrev pub none_left : List ℕ → Bool
none_left [] = true
none_left (m ∷ ms) = false

abbrev pub is_busy : Server → Bool
is_busy s = s.binit || not (none_left s.members) || s.has_post

unfoldable pub real_post : World → Bool → Server → Server
unfolding round timer_fini
real_post w finished s =
    if finished
    then record s { running = false }
    else if not (is_busy s)
    then timer_fini s
    else round w s

-- `timer_clock` of the server's timer, whose callback is `CIOServer::On_Timer`.
unfoldable pub tick : World → Server → Server
unfolding real_post
tick w s = elim s.clock [
  | clock_begin ↦ record (real_post w false s) { clock = clock_common }
  | clock_end ↦ record (real_post w true s) { clock = clock_null }
  | clock_common ↦ real_post w false s
  | _ ↦ s
]

-- What happens: a call of `Post` from any thread, a call of `Fini`, the beginning of `Run`, and the
-- timer.
pub data Step : Type 0 where
  asks : Task → Step
  ends starts ticks : Step

unfoldable pub step : World → Step → Server → Server
unfolding post fini real_post tick
step w (asks t) s = post t s
step w ends s = fini s
step w starts s = if not s.binit || not s.running then s else real_post w false s
step w ticks s = tick w s

unfoldable pub steps : World → List Step → Server → Server
unfolding step
steps w [] s = s
steps w (x ∷ xs) s = steps w xs (step w x s)
