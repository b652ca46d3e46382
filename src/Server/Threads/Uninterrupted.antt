-- ===== src/Server/Threads/Uninterrupted.antt =====
-- A request that no other thread interrupts, in the system of all threads.
use thing.Prelude.{◌≡◌, refl, false, List, ◌∷◌, ◌++◌, Bytes}
use thing.CString.{is_empty}
use thing.Files.{Tree}
use thing.Server.Connection.{handle_request}
use thing.Server.Threads.Handlers.{handle_request_calls}
use thing.Server.Threads.Program.{Program, done, call, run}
use thing.Server.Threads.Refines.{run-handle_request}
use thing.Server.Threads.System.{
  Phase, waiting, working, crashed, moved, System, reads, moves, turns, Reach, here, next,
}
use thing.Server.Types.{Session, State, Server, Outcome, replied, faulted, text}

-- Where a thread is behind its answer.
abbrev pub settled : Outcome → Session → List Bytes → Phase
settled (replied r) s sent = waiting s (text r ∷ sent)
settled faulted s sent = crashed

module _ (srv : Server) where
  pub Reach-trans : {x y z : System} → Reach srv x y → Reach srv y z → Reach srv x z
  Reach-trans r here = r
  Reach-trans r (next q st) = next (Reach-trans r q) st

  module _ (before after : List Phase) (sent : List Bytes) where
    -- The system with one thread in view.
    abbrev pub at : Phase → Tree → System
    at p t = record { files = t; threads = before ++ p ∷ after }

    settles :
        (o : Outcome) (s : Session) (t : Tree)
        → Reach srv (at (working (done (o, s)) sent) t) (at (settled o s sent) t)
    unfolding moved
    settles (replied r) s t = next here (
        turns before after
          (moves (working (done (replied r, s)) sent) t (waiting s (text r ∷ sent)) t refl))
    settles faulted s t =
        next here (turns before after (moves (working (done (faulted, s)) sent) t crashed t refl))

    pub runs :
        (m : Program (Outcome × Session)) (t : Tree)
        → Reach srv
            (at (working m sent) t)
            (at (settled (run m t).0.0 (run m t).0.1 sent) (run m t).1)
    unfolding run
    runs (done (o, s)) t = settles o s t
    runs (call act rest) t =
        Reach-trans
          (next here (
            turns before after (
              moves (working (call act rest) sent) t (working (rest t) sent) (act t)
                (unfold moved in refl))))
          (runs (rest t) (act t))

    -- Among any other threads, a thread for a client that reads a request, which is not empty, can take
    -- its turns one behind the other. It then has sent the answer of `handle_request` and has its
    -- session, or has crashed if `handle_request` faults; the files are those that `handle_request`
    -- leaves, and the other threads are as before.
    pub request_uninterrupted :
        (received : Bytes) (st : State)
        → is_empty received ≡ false
        → Reach srv (at (waiting st.session sent) st.tree) (
            at
              (settled
                (handle_request srv received st).0
                (handle_request srv received st).1.session
                sent)
              (handle_request srv received st).1.tree)
    request_uninterrupted received st e =
        let m = handle_request_calls srv received st.session in
        Reach-trans (next here (turns before after (reads received st.session sent st.tree e)))
          (rw (run-handle_request srv received st) at (runs m st.tree))
