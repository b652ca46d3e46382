-- ===== src/Server/Threads/Results.antt =====
-- Who is logged in behind a request of a client, whatever the other threads do in the meantime.
use thing.Prelude.{
  ◌≡◌, refl, Bool, true, false, not, Option, none, some, Bytes, take, Bool-cases, inl, inr,
}
use thing.CString.{cstr}
use thing.Commands.{find_command_handler}
use thing.Files.{Os}
use thing.Server.Account.Sessions.{
  IsNamed, IsNamed-no_session, IsNamed-closed, logged_in-IsNamed, credentials_bounded,
}
use thing.Server.Account.{credentials, rejects_username, delete_command}
use thing.Server.Dispatch
use thing.Server.Dispatch.{ClientHandler, client_commands}
use thing.Server.Threads.Asking.{
  Ends-all, Ends-if, Leaving, add_connection-Ends, set_trustline-Ends,
}
use thing.Server.Threads.Handlers.{
  register_user_calls, login_user_calls, register_calls, login_calls, logout_calls,
  delete_account_calls, deleted_session, run_client_calls, answer_client_calls,
  handle_request_calls,
}
use thing.Server.Threads.Program.{◌>>=◌, Ends, Ends-bind}
use thing.Server.Connection.{split_command}
use thing.Server.Types.{Session, Server, Reply, Outcome, login_success}

-- A result with a named session.
abbrev pub Named : Outcome × Session → Type 0
Named = Leaving IsNamed

-- LOGIN succeeds only for a name that REGISTER would accept.
abbrev Accepts : Bytes → Reply → Type 0
Accepts username r = r ≡ login_success → rejects_username username ≡ false

login_user-Accepts :
    (os : Os) (datadir username password : Bytes)
    → Ends (Accepts username) (login_user_calls os datadir username password)
unfolding login_user_calls
login_user-Accepts os datadir username password = elim (Bool-cases (rejects_username username)) [
  | inl e ↦ rw e (λ h. cc)
  | inr e ↦ Ends-all (Accepts username) (login_user_calls os datadir username password) (λ r h. e)
]

module _ (srv : Server) where
  register-Ends :
      (args : Option Bytes) (s : Session) → IsNamed s → Ends Named (register_calls srv args s)
  unfolding register_calls
  register-Ends none s n = n
  register-Ends (some a) s n =
      let m = register_user_calls srv.os srv.datadir (credentials a).0 (credentials a).1 in
      Ends-bind (λ r. Unit {0}) Named m _ (Ends-all (λ r. Unit {0}) m (λ r. tt)) (λ r u. n)

  login-Ends : (args : Option Bytes) (s : Session) → IsNamed s → Ends Named (login_calls srv args s)
  unfolding login_calls
  login-Ends none s n = n
  login-Ends (some a) s n =
      let (u, p) = credentials a in
      Ends-bind (Accepts u) Named (login_user_calls srv.os srv.datadir u p) _
        (login_user-Accepts srv.os srv.datadir u p)
        (λ r ok. logged_in-IsNamed r u s (credentials_bounded a).0 ok n)

  deleted-Named : (gone : Bool) (s : Session) → IsNamed s → Named (deleted_session gone s)
  unfolding deleted_session
  deleted-Named true s n = IsNamed-no_session
  deleted-Named false s n = n

  delete_account-Ends :
      (args : Option Bytes) (s : Session) → IsNamed s → Ends Named (delete_account_calls srv args s)
  unfolding delete_account_calls ◌>>=◌
  delete_account-Ends args s n =
      Ends-if Named (not s.authenticated) _ _ n
        (λ t. deleted-Named (srv.os.system (delete_command srv s) t).0 s n)

  run_client-Ends :
      (h : ClientHandler) (args : Option Bytes) (s : Session)
      → IsNamed s
      → Ends Named (run_client_calls srv h args s)
  unfolding run_client_calls
  run_client-Ends Dispatch.login args s n = login-Ends args s n
  run_client-Ends Dispatch.register args s n = register-Ends args s n
  run_client-Ends Dispatch.logout args s n =
      unfold logout_calls in IsNamed-closed (record s { authenticated = false }) refl
  run_client-Ends Dispatch.delete_account args s n = delete_account-Ends args s n
  run_client-Ends Dispatch.add_connection args s n = add_connection-Ends srv IsNamed args s n
  run_client-Ends Dispatch.set_trustline args s n = set_trustline-Ends srv IsNamed args s n

  answer_client-Ends :
      (h : Option ClientHandler) (args : Option Bytes) (s : Session)
      → IsNamed s
      → Ends Named (answer_client_calls srv h args s)
  unfolding answer_client_calls
  answer_client-Ends none args s n = n
  answer_client-Ends (some h) args s n = run_client-Ends h args s n

  pub handle_request-Ends :
      (received : Bytes) (s : Session)
      → IsNamed s
      → Ends Named (handle_request_calls srv received s)
  unfolding handle_request_calls
  handle_request-Ends received s n =
      let (command, arguments) = split_command (cstr (take 255 received)) in
      answer_client-Ends (find_command_handler command client_commands) arguments s n
