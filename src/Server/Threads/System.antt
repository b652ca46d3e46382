-- ===== src/Server/Threads/System.antt =====
-- The threads of the server and the files that they share, and the steps of the whole.
use thing.Prelude.{◌≡◌, false, Option, List, [], ◌∷◌, ◌++◌, Bytes}
use thing.CString.{is_empty}
use thing.Files.{Tree}
use thing.Server.Peer.{SubjectName}
use thing.Server.Threads.Handlers.{handle_request_calls}
use thing.Server.Threads.Peers.{handle_server_connection_calls}
use thing.Server.Threads.Program.{Program, done, call}
use thing.Server.Types.{Session, no_session, Server, Outcome, replied, faulted, text}

-- A thread for a client is at a read, or in a command; it has the texts that it sent, the last one
-- first. A thread for another server has one request. A thread ends, or is where C leaves undefined
-- what follows.
pub data Phase : Type 0 where
  waiting : Session → List Bytes → Phase
  working : Program (Outcome × Session) → List Bytes → Phase
  answering : Program Outcome → Phase
  closed : Session → List Bytes → Phase
  answered : Outcome → Phase
  crashed : Phase

-- The next turn of a thread in a command: a call of the system, or its answer.
unfoldable pub moved : Phase → Tree → Phase × Tree
moved (working (call act next) sent) t = (working (next t) sent, act t)
moved (working (done (replied r, s)) sent) t = (waiting s (text r ∷ sent), t)
moved (working (done (faulted, s)) sent) t = (crashed, t)
moved (answering (call act next)) t = (answering (next t), act t)
moved (answering (done o)) t = (answered o, t)
moved p t = (p, t)

pub record System : Type 0 where
  pub files : Tree
  pub threads : List Phase

module _ (srv : Server) where
  -- One thread takes its turn: `reads` and `hangs_up` are what a read of a client's connection gives.
  pub data Turn : Phase → Tree → Phase → Tree → Type 0 where
    reads :
        (received : Bytes) (s : Session) (sent : List Bytes) (t : Tree)
        → is_empty received ≡ false
        → Turn (waiting s sent) t (working (handle_request_calls srv received s) sent) t
    hangs_up :
        (s : Session) (sent : List Bytes) (t : Tree) → Turn (waiting s sent) t (closed s sent) t
    moves : (p : Phase) (t : Tree) (q : Phase) (u : Tree) → moved p t ≡ (q, u) → Turn p t q u

  -- A thread takes its turn, or a new thread is started.
  pub data Step : System → System → Type 0 where
    turns :
        {p q : Phase} {t u : Tree} (before after : List Phase)
        → Turn p t q u
        → Step
            (record { files = t; threads = before ++ p ∷ after })
            (record { files = u; threads = before ++ q ∷ after })
    client_comes :
        (t : Tree) (ps : List Phase)
        → Step
            (record { files = t; threads = ps })
            (record { files = t; threads = waiting no_session [] ∷ ps })
    server_comes :
        (subject : Option SubjectName) (received : Option Bytes) (t : Tree) (ps : List Phase)
        → Step
            (record { files = t; threads = ps })
            (record {
              files = t;
              threads = answering (handle_server_connection_calls srv subject received) ∷ ps;
            })

  pub data Reach (s : System) : System → Type 0 where
    here : Reach s s
    next : {u v : System} → Reach s u → Step u v → Reach s v
