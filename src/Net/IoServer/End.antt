-- ===== src/Net/IoServer/End.antt =====
-- The end of a server.
use mathlib.Core.List.{map}
use xhnet.Common.{
  ℕ, Bool, true, false, ◌≡◌, sym, ◌∙◌, ap, List, [], ◌∷◌, ◌++◌, if◌then◌else◌, append_assoc,
  append-nil,
}
use xhnet.Net.Timer.{clock_common}
use xhnet.Net.IoServer.{
  Task, task, fini_server, fini_timer, Server, World, post, post_all, fini, timer_fini, run, drain,
  round, real_post, tick,
}

-- Functions that only do something of their own.
abbrev pub IsSilent : World → Type 0
IsSilent w =
    (ran : List Task) (members : List ℕ) (n : ℕ)
    → w.effect ran members n ≡ record { throws = false; posts = []; members = members }

-- A running server without sockets and timers, where the functions `ns` wait.
abbrev pub quiet : List ℕ → Bool → List Task → List Task → Server
quiet ns has_post posted ran = record {
  running = true;
  binit = true;
  members = [];
  current = map task ns;
  other = [];
  has_post = has_post;
  clock = clock_common;
  posted = posted;
  ran = ran;
}

drain-one :
    (w : World) (n : ℕ) (ts : List Task) (s : Server)
    → IsSilent w
    → drain w (task n ∷ ts) s ≡ drain w ts (record s { ran = s.ran ++ (task n ∷ []) })
unfolding drain run post_all
drain-one w n ts s c =
    ap {B = Server}
      (λ e.
        let s' = record (post_all e.posts s) { members = e.members } in
        if e.throws
        then record s' { other = task n ∷ ts }
        else drain w ts (record s' { ran = s'.ran ++ (task n ∷ []) }))
      (c s.ran s.members n)

-- The loop, when what waits first are such functions.
drain-silent :
    (w : World) (ns : List ℕ) (ts : List Task) (s : Server)
    → IsSilent w
    → drain w (map task ns ++ ts) s ≡ drain w ts (record s { ran = s.ran ++ map task ns })
drain-silent w [] ts s c =
    ap {B = Server} (λ l. drain w ts (record s { ran = l })) (sym (append-nil s.ran))
drain-silent w (n ∷ ns) ts s c =
    drain-one w n (map task ns ++ ts) s c
    ∙ drain-silent w ns ts (record s { ran = s.ran ++ (task n ∷ []) }) c
    ∙ ap {B = Server} (λ l. drain w ts (record s { ran = l }))
        (append_assoc s.ran (task n ∷ []) (map task ns))

-- Where the functions neither throw, post nor change the maps, after `Fini` four ticks of the
-- timer end a running server without sockets and timers. By then all the functions that waited
-- have run, in their order, then that of `Fini`, and then the end of the server's timer.
pub quiet-ends :
    (w : World) (ns : List ℕ) (has_post : Bool) (posted ran : List Task)
    → IsSilent w
    → let s = tick w (tick w (tick w (tick w (fini (quiet ns has_post posted ran))))) in
      (s.running ≡ false) × (s.ran ≡ ran ++ (map task ns ++ (fini_server ∷ fini_timer ∷ [])))
unfolding tick fini post real_post round timer_fini drain run post_all
quiet-ends w ns has_post posted ran c =
    let e =
      drain-silent w ns (fini_server ∷ [])
        (record (fini (quiet ns has_post posted ran)) { current = []; has_post = false }) c in
    (
      ap (λ x. (tick w (tick w (tick w x))).running) e,
      ap (λ x. (tick w (tick w (tick w x))).ran) e
          ∙ append_assoc (ran ++ map task ns) (fini_server ∷ []) (fini_timer ∷ [])
          ∙ append_assoc ran (map task ns) (fini_server ∷ fini_timer ∷ []),
    )
