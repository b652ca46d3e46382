-- ===== src/Server/Sessions.antt =====
-- Who a session belongs to, over all commands of a connection.
use thing.Prelude.{
  ◌≡◌, refl, Bool, true, false, Option, none, some, List, [], ◌∷◌, Bytes, arith, if◌then◌else◌,
  take,
}
use thing.CString.{is_empty, cstr}
use thing.Commands.{find_command_handler}
use thing.Files.{Tree}
use thing.Server.Account.Sessions.{
  IsNamed, IsNamed-no_session, register-IsNamed, login-IsNamed, logout-IsNamed,
  delete_account-IsNamed,
}
use thing.Server.Account.{
  client_handle_register, client_handle_login, client_handle_logout, client_handle_delete_account,
  credentials, login_user, logged_in,
}
use thing.Server.Connection.{
  End, split_command, handle_request, continue, serve, handle_client_connection,
}
use thing.Server.Dispatch.{
  ClientHandler, run_client, answer_client, client_dispatch_command, client_commands,
}
use thing.Server.Dispatch
use thing.Server.Trust.Sessions.{session-add_connection, session-set_trustline}
use thing.Server.Trust.{client_handle_add_connection, client_handle_set_trustline}
use thing.Server.Types.{
  Session, no_session, Server, State, Reply, Outcome, replied, faulted, auth_required,
  login_success,
}

unlike : {b : Bool} → b ≡ false → b ≡ true → ⊥
unlike h k = cc

logged_in_inv :
    (r : Reply) (u : Bytes) (s : Session)
    → s.authenticated ≡ false
    → (logged_in r u s).authenticated ≡ true
    → (r ≡ login_success) × ((logged_in r u s).username ≡ take 255 u)
unfolding logged_in
logged_in_inv login_success u s e k = (refl, refl)
logged_in_inv _ u s e k = absurd (unlike e k)

module _ (srv : Server) where
  -- Every handler keeps the session named, whatever its arguments, the files and the other servers.
  pub run_client-IsNamed :
      (h : ClientHandler) (args : Option Bytes) (st : State)
      → IsNamed st.session
      → IsNamed (run_client srv h args st).1.session
  unfolding run_client
  run_client-IsNamed Dispatch.login args st n = login-IsNamed srv args st n
  run_client-IsNamed Dispatch.register args st n = register-IsNamed srv args st n
  run_client-IsNamed Dispatch.logout args st n = logout-IsNamed srv args st
  run_client-IsNamed Dispatch.delete_account args st n = delete_account-IsNamed srv args st n
  run_client-IsNamed Dispatch.add_connection args st n = rw (session-add_connection srv args st) n
  run_client-IsNamed Dispatch.set_trustline args st n = rw (session-set_trustline srv args st) n

  answer_client-IsNamed :
      (h : Option ClientHandler) (args : Option Bytes) (st : State)
      → IsNamed st.session
      → IsNamed (answer_client srv h args st).1.session
  unfolding answer_client
  answer_client-IsNamed none args st n = n
  answer_client-IsNamed (some h) args st n = run_client-IsNamed h args st n

  pub request-IsNamed :
      (received : Bytes) (st : State)
      → IsNamed st.session
      → IsNamed (handle_request srv received st).1.session
  unfolding handle_request client_dispatch_command
  request-IsNamed received st n =
      let (command, arguments) = split_command (cstr (take 255 received)) in
      answer_client-IsNamed (find_command_handler command client_commands) arguments st n

  continue-IsNamed :
      (r : Outcome × State) (rest : State → List Bytes × End × State)
      → IsNamed r.1.session
      → ((st : State) → IsNamed st.session → IsNamed (rest st).2.session)
      → IsNamed (continue srv r rest).2.session
  unfolding continue
  continue-IsNamed (faulted, st) rest n k = n
  continue-IsNamed (replied x, st) rest n k = k st n

  IsNamed-if :
      (b : Bool) (x y : List Bytes × End × State)
      → IsNamed x.2.session
      → IsNamed y.2.session
      → IsNamed (if b then x else y).2.session
  IsNamed-if true x y h k = h
  IsNamed-if false x y h k = k

  serve-IsNamed :
      (reads : List Bytes) (st : State)
      → IsNamed st.session
      → IsNamed (serve srv reads st).2.session
  unfolding serve
  serve-IsNamed [] st n = n
  serve-IsNamed (received ∷ rest) st n = IsNamed-if (is_empty received) _ _ n (
      continue-IsNamed (handle_request srv received st) (serve srv rest)
        (request-IsNamed received st n) (serve-IsNamed rest))

  -- Whatever a client sends on a connection, the session at its end, if it is logged in, has a name
  -- of 1 to 255 bytes, all letters, digits and underscores.
  pub connection-IsNamed :
      (acknowledged : Bool) (reads : List Bytes) (t : Tree)
      → IsNamed (handle_client_connection srv acknowledged reads t).2.session
  unfolding handle_client_connection
  connection-IsNamed true reads t =
      serve-IsNamed reads (record { session = no_session; tree = t }) IsNamed-no_session
  connection-IsNamed false reads t = IsNamed-no_session

  -- The commands that act on an account.
  abbrev NeedsLogin : ClientHandler → Type 0
  NeedsLogin Dispatch.delete_account = Unit
  NeedsLogin Dispatch.add_connection = Unit
  NeedsLogin Dispatch.set_trustline = Unit
  NeedsLogin _ = ⊥

  -- DELETE_ACCOUNT, ADD_CONNECTION and SET_TRUSTLINE without a login are answered by
  -- AUTH_REQUIRED, and change neither the session nor a file.
  run_client_unauthenticated :
      (h : ClientHandler) (args : Option Bytes) (st : State)
      → NeedsLogin h
      → st.session.authenticated ≡ false
      → run_client srv h args st ≡ (replied auth_required, st)
  unfolding run_client client_handle_delete_account client_handle_add_connection
      client_handle_set_trustline
  run_client_unauthenticated Dispatch.delete_account args st n e = ground arith
  run_client_unauthenticated Dispatch.add_connection args st n e = ground arith
  run_client_unauthenticated Dispatch.set_trustline args st n e = ground arith
  run_client_unauthenticated Dispatch.login args st n e = absurd n
  run_client_unauthenticated Dispatch.register args st n e = absurd n
  run_client_unauthenticated Dispatch.logout args st n e = absurd n

  -- A session that was not logged in is so after a command only if the command was LOGIN, with
  -- arguments whose name and password `login_user` accepts for the files at hand; the session then
  -- has the first 255 bytes of that name.
  pub run_client_logs_in :
      (h : ClientHandler) (args : Option Bytes) (st : State)
      → st.session.authenticated ≡ false
      → (run_client srv h args st).1.session.authenticated ≡ true
      → (h ≡ Dispatch.login)
        × (a : Bytes) × (args ≡ some a)
        × (login_user srv.os srv.datadir (credentials a).0 (credentials a).1 st.tree
            ≡ login_success)
        × ((run_client srv h args st).1.session.username ≡ take 255 (credentials a).0)
  run_client_logs_in Dispatch.login none st e k =
      absurd (unlike e (unfold run_client client_handle_login in k))
  run_client_logs_in Dispatch.login (some a) st e k =
      let r = login_user srv.os srv.datadir (credentials a).0 (credentials a).1 st.tree in
      let won =
        logged_in_inv r (credentials a).0 st.session e
          (unfold run_client client_handle_login in k) in
      (refl, a, refl, won.0, unfold run_client client_handle_login in won.1)
  run_client_logs_in Dispatch.register none st e k =
      absurd (unlike e (unfold run_client client_handle_register in k))
  run_client_logs_in Dispatch.register (some a) st e k =
      absurd (unlike e (unfold run_client client_handle_register in k))
  run_client_logs_in Dispatch.logout args st e k =
      absurd (unlike {b = false} refl (unfold run_client client_handle_logout in k))
  run_client_logs_in Dispatch.delete_account args st e k =
      absurd (unlike e (rw (run_client_unauthenticated Dispatch.delete_account args st tt e) at k))
  run_client_logs_in Dispatch.add_connection args st e k =
      absurd (unlike e (rw (run_client_unauthenticated Dispatch.add_connection args st tt e) at k))
  run_client_logs_in Dispatch.set_trustline args st e k =
      absurd (unlike e (rw (run_client_unauthenticated Dispatch.set_trustline args st tt e) at k))
