-- ===== src/Server/Threads/Race.antt =====
-- Two clients that register one name at once.
use thing.Prelude.{
  ◌≡◌, ◌≤◌, ◌<◌, refl, ◌∙◌, false, some, none, List, [], ◌∷◌, ◌++◌, Bytes, codes, length, drop,
}
use thing.Database.Success.{path_text, IsClear}
use thing.Files.Laws.{IsTree}
use thing.Files.Writes.{IsObliging}
use thing.Files.{FilePath, file, Tree, Os, node_at}
use thing.Server.Account.Login.{dir_of}
use thing.Server.Account.{rejects_username, credentials, create_account}
use thing.Server.Registry.Files.{account_dir, password_file}
use thing.Server.Registry.Race.{not_found, first, second, creates_first, creates_second}
use thing.Server.Threads.Alone.{run-create_account}
use thing.Server.Threads.Handlers.{register_calls, register_user_calls, create_account_calls}
use thing.Server.Threads.Program.{Program, done, ◌>>=◌, run, run-bind}
use thing.Server.Threads.System.{Phase, waiting, working, moved, moves, turns, Reach, here, next}
use thing.Server.Threads.Uninterrupted.{Reach-trans, runs}
use thing.Server.Types.{Server, Session, Reply, Outcome, replied, text, register_success}

module _ (os : Os) (datadir : Bytes) where
  answers : Session → Reply → Program (Outcome × Session)
  answers s r = done (replied r, s)

  -- REGISTER in front of its test for the account, and behind it.
  testing : Bytes → Bytes → Session → Program (Outcome × Session)
  testing u a s = register_user_calls os datadir u a >>= answers s

  creating : Bytes → Bytes → Session → Program (Outcome × Session)
  creating u a s = create_account_calls os (dir_of datadir u) a >>= answers s

  run-creating :
      (u a : Bytes) (s : Session) (t : Tree)
      → run (creating u a s) t ≡ (
        (replied (create_account os (dir_of datadir u) a t).0, s),
        (create_account os (dir_of datadir u) a t).1,
      )
  unfolding creating answers
  run-creating u a s t =
      run-bind (create_account_calls os (dir_of datadir u) a) (answers s) t
      ∙ rw (run-create_account os (dir_of datadir u) a t) (unfold run in refl)

-- How two threads in REGISTER come to have both answered REGISTER_SUCCESS.
pub record Collides (srv : Server) (p : FilePath) (u a b args1 args2 : Bytes) (s1 s2 : Session)
    (t : Tree) : Type 0 where
  pub files : Tree
  pub reach :
      Reach srv
        (record {
          files = t;
          threads =
              working (register_calls srv (some args1) s1) []
              ∷ working (register_calls srv (some args2) s2) []
              ∷ [];
        })
        (record {
          files = files;
          threads =
              waiting s1 (text register_success ∷ [])
              ∷ waiting s2 (text register_success ∷ [])
              ∷ [];
        })
  pub holds : node_at (password_file p u) files ≡ some (file (b ++ drop (length b) a))

module _ (srv : Server) (kind : IsObliging srv.os) (p : FilePath) (is : srv.datadir ≡ path_text p)
    (short : length (path_text p) < 256) (u : Bytes) (name : length u ≤ 255)
    (accepted : rejects_username u ≡ false) (t : Tree) (tree : IsTree t)
    (clear : IsClear (codes "accounts" ∷ p) t) (new : node_at (account_dir p u) t ≡ none) where
  -- The test of a thread, when there is no account.
  tested :
      (a : Bytes) (s : Session) (sent : List Bytes)
      → moved (working (testing srv.os (path_text p) u a s) sent) t
        ≡ (working (creating srv.os (path_text p) u a s) sent, t)
  unfolding moved testing creating register_user_calls ◌>>=◌
  tested a s sent =
      rw (accepted, not_found srv.os kind p short u name accepted a a t tree clear new)

  begins :
      (args a : Bytes) (s : Session)
      → credentials args ≡ (u, a)
      → register_calls srv (some args) s ≡ testing srv.os (path_text p) u a s
  unfolding register_calls testing answers
  begins args a s e = rw (e, is)

  module _ (a b : Bytes) (s1 s2 : Session) where
    told : List Bytes
    told = text register_success ∷ []

    -- Both look, then the first stores its password, then the second.
    both_tested :
        Reach srv
          (record {
            files = t;
            threads =
                working (testing srv.os (path_text p) u a s1) []
                ∷ working (testing srv.os (path_text p) u b s2) []
                ∷ [];
          })
          (record {
            files = t;
            threads =
                working (creating srv.os (path_text p) u a s1) []
                ∷ working (creating srv.os (path_text p) u b s2) []
                ∷ [];
          })
    both_tested =
        let mine : Phase = working (creating srv.os (path_text p) u a s1) [] in
        let other : Phase = working (testing srv.os (path_text p) u b s2) [] in
        next
          (next here (
            turns [] (other ∷ [])
              (moves (working (testing srv.os (path_text p) u a s1) []) t mine t (tested a s1 []))))
          (turns (mine ∷ []) []
            (moves other t (working (creating srv.os (path_text p) u b s2) []) t (tested b s2 [])))

    abbrev stored : Tree
    stored = first srv.os kind p short u name accepted a b t tree clear new

    first_stores :
        (others : List Phase)
        → Reach srv
            (record {
              files = t;
              threads = working (creating srv.os (path_text p) u a s1) [] ∷ others;
            })
            (record { files = stored; threads = waiting s1 told ∷ others })
    unfolding told
    first_stores others =
        rw
          (
            run-creating srv.os (path_text p) u a s1 t,
            creates_first srv.os kind p short u name accepted a b t tree clear new,
          )
          at (runs srv [] others [] (creating srv.os (path_text p) u a s1) t)

    second_stores :
        (before : List Phase)
        → Reach srv
            (record {
              files = stored;
              threads = before ++ working (creating srv.os (path_text p) u b s2) [] ∷ [];
            })
            (record {
              files = second srv.os kind p short u name accepted a b t tree clear new;
              threads = before ++ waiting s2 told ∷ [];
            })
    unfolding told
    second_stores before =
        rw
          (
            run-creating srv.os (path_text p) u b s2 stored,
            (creates_second srv.os kind p short u name accepted a b t tree clear new).0,
          )
          at (runs srv before [] [] (creating srv.os (path_text p) u b s2) stored)

    -- Two clients can both be told that they have registered one name, of which there was no account:
    -- with both threads in REGISTER at the start, their turns can come such that both tests for the
    -- account are in front of both stores. The file then holds the second password, followed by
    -- what the first had behind its length. The system refuses nothing and writes all it is given,
    -- the data directory has plain names and less than 256 bytes, each node stands in a directory,
    -- no file is in the way of the accounts, and the name is one that is accepted, of at most 255
    -- bytes.
    pub register_calls-Collides :
        (args1 args2 : Bytes)
        → credentials args1 ≡ (u, a)
        → credentials args2 ≡ (u, b)
        → Collides srv p u a b args1 args2 s1 s2 t
    unfolding told
    register_calls-Collides args1 args2 e1 e2 = record {
      files = second srv.os kind p short u name accepted a b t tree clear new;
      reach =
          rw (begins args1 a s1 e1, begins args2 b s2 e2)
            (Reach-trans srv
              (Reach-trans srv both_tested
                (first_stores (working (creating srv.os (path_text p) u b s2) [] ∷ [])))
              (second_stores (waiting s1 told ∷ [])));
      holds = (creates_second srv.os kind p short u name accepted a b t tree clear new).1;
    }
