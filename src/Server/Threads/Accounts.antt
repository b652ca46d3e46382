-- ===== src/Server/Threads/Accounts.antt =====
-- REGISTER, LOGIN and DELETE_ACCOUNT, uninterrupted.
use thing.Prelude.{◌≡◌, refl, ◌∙◌, Bool, true, false, not, Option, none, some, Bytes, if◌then◌else◌}
use thing.Files.{Tree}
use thing.Server.Account.{
  credentials, delete_command, deleted, client_handle_register, client_handle_login,
  client_handle_delete_account,
}
use thing.Server.Threads.Alone.{run-register_user, run-login_user}
use thing.Server.Threads.Handlers.{
  register_user_calls, login_user_calls, register_calls, login_calls, delete_account_calls,
  deleted_session,
}
use thing.Server.Threads.Program.{◌>>=◌, run, run-bind, run-if}
use thing.Server.Types.{Session, Server, State, Outcome}

-- A result with the session and the files apart.
abbrev pub apart : Outcome × State → (Outcome × Session) × Tree
apart r = ((r.0, r.1.session), r.1.tree)

pub if-apart :
    (b : Bool) (x y : Outcome × State)
    → (if b then apart x else apart y) ≡ apart (if b then x else y)
if-apart true x y = refl
if-apart false x y = refl

module _ (srv : Server) where
  pub run-register :
      (args : Option Bytes) (st : State)
      → run (register_calls srv args st.session) st.tree
        ≡ apart (client_handle_register srv args st)
  unfolding register_calls client_handle_register
  run-register none st = unfold run in refl
  run-register (some a) st =
      run-bind (register_user_calls srv.os srv.datadir (credentials a).0 (credentials a).1) _
        st.tree
      ∙ rw (run-register_user srv.os srv.datadir (credentials a).0 (credentials a).1 st.tree)
          (unfold run in refl)

  pub run-login :
      (args : Option Bytes) (st : State)
      → run (login_calls srv args st.session) st.tree ≡ apart (client_handle_login srv args st)
  unfolding login_calls client_handle_login
  run-login none st = unfold run in refl
  run-login (some a) st =
      run-bind (login_user_calls srv.os srv.datadir (credentials a).0 (credentials a).1) _ st.tree
      ∙ rw (run-login_user srv.os srv.datadir (credentials a).0 (credentials a).1 st.tree)
          (unfold run in refl)

  run-deleted :
      (r : Bool × Tree) (st : State) → (deleted_session r.0 st.session, r.1) ≡ apart (deleted r st)
  unfolding deleted_session deleted
  run-deleted (true, t) st = refl
  run-deleted (false, t) st = refl

  pub run-delete_account :
      (args : Option Bytes) (st : State)
      → run (delete_account_calls srv args st.session) st.tree
        ≡ apart (client_handle_delete_account srv args st)
  unfolding delete_account_calls client_handle_delete_account run ◌>>=◌
  run-delete_account args st =
      run-if (not st.session.authenticated) _ _ st.tree refl
        (run-deleted (srv.os.system (delete_command srv st.session) st.tree) st)
      ∙ if-apart (not st.session.authenticated) _ _
