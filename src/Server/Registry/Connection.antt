-- ===== src/Server/Registry/Connection.antt =====
-- A client's connection is a session with the table of accounts.
use thing.Prelude.{
  ◌≡◌, refl, ap, true, false, Option, none, some, List, [], ◌∷◌, Bytes, All, take, Bool-cases, inl,
  inr, ◌==◌,
}
use mathlib.Core.List.{map}
use mathlib.Core.Path.{subst}
use thing.CString.{IsCstr, cstr, is_empty}
use thing.CString.Laws.{IsCstr-cstr}
use thing.Commands.{find_command_handler}
use thing.Files.{FilePath, Tree}
use thing.Server.Account.Sessions.{IsNamed, IsNamed-no_session}
use thing.Server.Account.{client_handle_register, client_handle_login, client_handle_logout}
use thing.Server.Connection.{
  End, closed, split_command, handle_request, continue, serve, handle_client_connection,
}
use thing.Server.Dispatch
use thing.Server.Dispatch.{
  ClientHandler, client_commands, run_client, answer_client, client_dispatch_command,
}
use thing.Server.Registry.Files.{Represents, Works}
use thing.Server.Registry.Handlers.{
  Answers, service, register-Answers, login-Answers, delete_account-Answers,
}
use thing.Server.Registry.{Registry, Request, Service, request, requests, request_of, asks, meaning}
use thing.Server.Sessions.{request-IsNamed}
use thing.Server.Types.{no_session, Server, State, Reply, Outcome, replied, faulted, text}

some_inj : {A : Type 0} {a b : A} → some a ≡ some b → a ≡ b
some_inj h = cc

-- The arguments of a command hold no NUL.
split-IsCstr : (s args : Bytes) → IsCstr s → (split_command s).1 ≡ some args → IsCstr args
unfolding split_command
split-IsCstr [] args h e = cc
split-IsCstr (c ∷ s) args (h, t) e = elim (Bool-cases (c == b' ')) [
  | inl k ↦ rw (← some_inj (rw k at e)) t
  | inr k ↦ split-IsCstr s args t (rw k at e)
]

-- What a connection gave, as the service promises it: the texts of the answers, the end of a thread
-- that frees the connection, the files of the table, and the session.
pub record Served (p : FilePath) (result : List Bytes × End × State)
    (promised : List Reply × Service) : Type 0 where
  pub sent : result.0 ≡ map text promised.0
  pub end : result.1 ≡ closed
  pub files : Represents p result.2.tree promised.1.registry
  pub session : result.2.session ≡ promised.1.session

module _ (srv : Server) (p : FilePath) (works : Works srv.os srv.datadir p) where
  -- Every command about accounts does to the files and the session what its request does to the
  -- table, and gives its answer.
  pub run_client-Answers :
      (h : ClientHandler) (args : Option Bytes) (st : State) (r : Registry) (q : Request)
      → Represents p st.tree r
      → IsNamed st.session
      → ((a : Bytes) → args ≡ some a → IsCstr a)
      → request_of h args ≡ some q
      → Answers p (run_client srv h args st) (request q (service r st))
  unfolding run_client request_of request client_handle_register client_handle_login
      client_handle_logout
  run_client-Answers Dispatch.login none st r q i n c e =
      rw (← some_inj e) (record { reply = refl; files = i; session = refl })
  run_client-Answers Dispatch.login (some a) st r q i n c e =
      rw (← some_inj e) (login-Answers srv p works st r i a)
  run_client-Answers Dispatch.register none st r q i n c e =
      rw (← some_inj e) (record { reply = refl; files = i; session = refl })
  run_client-Answers Dispatch.register (some a) st r q i n c e =
      rw (← some_inj e) (register-Answers srv p works st r i a (c a refl))
  run_client-Answers Dispatch.logout args st r q i n c e =
      rw (← some_inj e) (record { reply = refl; files = i; session = refl })
  run_client-Answers Dispatch.delete_account args st r q i n c e =
      rw (← some_inj e) (delete_account-Answers srv p works st r i args n)
  run_client-Answers Dispatch.add_connection args st r q i n c e = cc
  run_client-Answers Dispatch.set_trustline args st r q i n c e = cc

  answer_client-Answers :
      (h : Option ClientHandler) (args : Option Bytes) (st : State) (r : Registry) (q : Request)
      → Represents p st.tree r
      → IsNamed st.session
      → ((a : Bytes) → args ≡ some a → IsCstr a)
      → asks h args ≡ some q
      → Answers p (answer_client srv h args st) (request q (service r st))
  unfolding asks answer_client request
  answer_client-Answers none args st r q i n c e =
      rw (← some_inj e) (record { reply = refl; files = i; session = refl })
  answer_client-Answers (some h) args st r q i n c e = run_client-Answers h args st r q i n c e

  handle_request-Answers :
      (received : Bytes) (st : State) (r : Registry) (q : Request)
      → Represents p st.tree r
      → IsNamed st.session
      → meaning received ≡ some q
      → Answers p (handle_request srv received st) (request q (service r st))
  unfolding meaning handle_request client_dispatch_command
  handle_request-Answers received st r q i n e =
      let s = cstr (take 255 received) in
      let (command, args) = split_command s in
      answer_client-Answers (find_command_handler command client_commands) args st r q i n
        (λ a k. split-IsCstr s a (IsCstr-cstr (take 255 received)) k) e

  continue-replied :
      (result : Outcome × State) (x : Reply) (rest : State → List Bytes × End × State)
      → result.0 ≡ replied x
      → continue srv result rest
        ≡ (text x ∷ (rest result.1).0, (rest result.1).1, (rest result.1).2)
  unfolding continue
  continue-replied (replied y, st) x rest e = rw (same_reply e) refl
    where
      same_reply : {x y : Reply} → replied y ≡ replied x → y ≡ x
      same_reply k = cc
  continue-replied (faulted, st) x rest e = cc

  serve-Served :
      (reads : List Bytes) (qs : List Request) (st : State) (v : Service)
      → All (λ b. is_empty b ≡ false) reads
      → map meaning reads ≡ map some qs
      → Represents p st.tree v.registry
      → IsNamed st.session
      → st.session ≡ v.session
      → Served p (serve srv reads st) (requests qs v)
  unfolding serve requests
  serve-Served [] [] st v full e i n k = record { sent = refl; end = refl; files = i; session = k }
  serve-Served [] (q ∷ qs) st v full e i n k = cc
  serve-Served (b ∷ reads) [] st v full e i n k = cc
  serve-Served (b ∷ reads) (q ∷ qs) st v (here, full) e i n k =
      let first : meaning b ≡ some q = cc in
      let others : map meaning reads ≡ map some qs = cc in
      let answer : Answers p (handle_request srv b st) (request q v) =
        subst
          (λ s.
            Answers p (handle_request srv b st)
              (request q (record { registry = v.registry; session = s })))
          k (handle_request-Answers b st v.registry q i n first) in
      let later =
        serve-Served reads qs (handle_request srv b st).1 (request q v).1 full others answer.files
          (request-IsNamed srv b st n) answer.session in
      rw
        (
          here,
          continue-replied (handle_request srv b st) (request q v).0 (serve srv reads) answer.reply,
        )
        (record {
          sent = ap (◌∷◌ (text (request q v).0)) later.sent;
          end = later.end;
          files = later.files;
          session = later.session;
        })

  -- On a system that refuses nothing, writes all it is given and runs `rm -rf` as documented and
  -- without a failure on the directory of an account, with a data directory of plain names and less than 256 literal bytes: if the
  -- files hold a table of accounts at the start, and every read of a connection is non-empty and is
  -- a request about accounts, or a command that is not of the protocol, the thread sends the texts
  -- of the answers that the table promises, one for each read and in their order, and ends with
  -- freeing the connection; the files then hold the table, and the session is the one, that the
  -- requests lead to.
  pub connection_refines :
      (reads : List Bytes) (qs : List Request) (t : Tree) (r : Registry)
      → All (λ b. is_empty b ≡ false) reads
      → map meaning reads ≡ map some qs
      → Represents p t r
      → Served p
          (handle_client_connection srv true reads t)
          (requests qs (record { registry = r; session = no_session }))
  unfolding handle_client_connection
  connection_refines reads qs t r full e i =
      serve-Served reads qs (record { session = no_session; tree = t })
        (record { registry = r; session = no_session }) full e i IsNamed-no_session refl
