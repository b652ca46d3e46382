-- ===== src/Server/Threads/Sessions.antt =====
-- Who is logged in, whatever turns the threads take.
use thing.Prelude.{ap, List, [], ◌∷◌, ◌++◌, All}
use thing.Files.{Tree}
use thing.Server.Account.Sessions.{IsNamed, IsNamed-no_session}
use thing.Server.Threads.Program.{done, call, Ends}
use thing.Server.Threads.Results.{Named, handle_request-Ends}
use thing.Server.Threads.System.{
  Phase, waiting, working, answering, closed, answered, crashed, moved, System, Turn, reads,
  hangs_up, moves, Step, turns, client_comes, server_comes, Reach, here, next,
}
use thing.Server.Types.{Server, replied, faulted}

-- The session of a thread for a client, between two commands or at its end.
abbrev pub IsNamedThread : Phase → Type 0
IsNamedThread (waiting s sent) = IsNamed s
IsNamedThread (working p sent) = Ends Named p
IsNamedThread (closed s sent) = IsNamed s
IsNamedThread _ = Unit

moved-IsNamedThread : (p : Phase) (t : Tree) → IsNamedThread p → IsNamedThread (moved p t).0
unfolding moved
moved-IsNamedThread (waiting s sent) t n = n
moved-IsNamedThread (working (call act rest) sent) t n = n t
moved-IsNamedThread (working (done (replied r, s)) sent) t n = n
moved-IsNamedThread (working (done (faulted, s)) sent) t n = tt
moved-IsNamedThread (answering (call act rest)) t n = tt
moved-IsNamedThread (answering (done o)) t n = tt
moved-IsNamedThread (closed s sent) t n = n
moved-IsNamedThread (answered o) t n = tt
moved-IsNamedThread crashed t n = tt

All-turned :
    {A : Type 0} (P : A → Type 0) (before after : List A) {p q : A}
    → (P p → P q)
    → All P (before ++ p ∷ after)
    → All P (before ++ q ∷ after)
All-turned P [] after f (h, k) = (f h, k)
All-turned P (x ∷ before) after f (h, k) = (h, All-turned P before after f k)

module _ (srv : Server) where
  Turn-IsNamedThread :
      {p q : Phase} {t u : Tree} → Turn srv p t q u → IsNamedThread p → IsNamedThread q
  Turn-IsNamedThread (reads received s sent t e) n = handle_request-Ends srv received s n
  Turn-IsNamedThread (hangs_up s sent t) n = n
  Turn-IsNamedThread (moves p t q u e) n =
      rw (ap (λ (r : Phase × Tree). r.0) e) at (moved-IsNamedThread p t n)

  Step-IsNamedThread :
      {x y : System} → Step srv x y → All IsNamedThread x.threads → All IsNamedThread y.threads
  Step-IsNamedThread (turns before after turn) h =
      All-turned IsNamedThread before after (Turn-IsNamedThread turn) h
  Step-IsNamedThread (client_comes t ps) h = (IsNamed-no_session, h)
  Step-IsNamedThread (server_comes subject received t ps) h = (tt, h)

  -- However the threads for clients and for other servers come and take turns at the system's calls,
  -- and whatever the files are: if at the start each session that is logged in has a valid name of 1
  -- to 255 bytes, so has each session between two commands and at the end of its thread, and each
  -- that a command in progress will leave.
  pub Reach-IsNamedThread :
      {x y : System} → Reach srv x y → All IsNamedThread x.threads → All IsNamedThread y.threads
  Reach-IsNamedThread here h = h
  Reach-IsNamedThread (next r st) h = Step-IsNamedThread st (Reach-IsNamedThread r h)
