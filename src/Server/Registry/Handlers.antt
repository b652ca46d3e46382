-- ===== src/Server/Registry/Handlers.antt =====
-- REGISTER, LOGIN and DELETE_ACCOUNT answer as the table of accounts promises.
use thing.Prelude.{
  ◌≡◌, ◌<◌, refl, ap, ◌∙◌, Bool, true, false, Option, none, some, ◌∷◌, ◌++◌, Bytes, codes, length,
  take_all, Bool-cases, inl, inr,
}
use thing.CString.{IsCstr}
use thing.Database.Success.{path_text, resolve-path_text}
use thing.Files.{FilePath, Tree, Os, resolve}
use thing.Server.Account.Delete.{runs, resolved, literal_path}
use thing.Server.Account.RoundTrip.{credentials-IsPassword}
use thing.Server.Account.Sessions.{IsNamed, credentials_bounded}
use thing.Server.Account.{
  account_path, rejects_username, register_user, login_user, logged_in, deleted, credentials,
  client_handle_register, client_handle_login, client_handle_delete_account,
}
use thing.Server.Registry
use thing.Server.Registry.Delete.{Cut, cut-Represents}
use thing.Server.Registry.Files.{account_dir, Represents, Works}
use thing.Server.Registry.Login.{login_user-admit, admit-logged_in}
use thing.Server.Registry.Register.{register_user-Agrees}
use thing.Server.Registry.{Registry, Request, Service, update, enroll, admit, request}
use thing.Server.Types.{
  no_session, Server, State, Reply, Outcome, replied, invalid_username, user_deleted_successfully,
}

-- What a handler gave, as the service promises it.
pub record Answers (p : FilePath) (result : Outcome × State) (promised : Reply × Service)
    : Type 0 where
  pub reply : result.0 ≡ replied promised.0
  pub files : Represents p result.1.tree promised.1.registry
  pub session : result.1.session ≡ promised.1.session

-- The service that a state of the server stands for.
abbrev pub service : Registry → State → Service
service r st = record { registry = r; session = st.session }

register_rejected :
    (os : Os) (d u pw : Bytes) (t : Tree)
    → rejects_username u ≡ true
    → register_user os d u pw t ≡ (invalid_username, t)
unfolding register_user
register_rejected os d u pw t e = rw e

login_rejected :
    (os : Os) (d u pw : Bytes) (t : Tree)
    → rejects_username u ≡ true
    → login_user os d u pw t ≡ invalid_username
unfolding login_user
login_rejected os d u pw t e = rw e

module _ (srv : Server) (p : FilePath) (works : Works srv.os srv.datadir p) (st : State)
    (r : Registry) (i : Represents p st.tree r) where
  short : length (path_text p) < 256
  short = rw (← works.is) works.short

  pub register-Answers :
      (args : Bytes)
      → IsCstr args
      → Answers p
          (client_handle_register srv (some args) st)
          (request (Registry.register (credentials args).0 (credentials args).1) (service r st))
  unfolding client_handle_register request
  register-Answers args c =
      let (u, pw) = credentials args in
      elim (Bool-cases (rejects_username u)) [
        | inl e ↦
            rw (e, register_rejected srv.os srv.datadir u pw st.tree e)
              (record { reply = refl; files = i; session = refl })
        | inr e ↦
            let agrees =
              register_user-Agrees srv.os works.kind p short u (credentials_bounded args).0 e pw
                (credentials-IsPassword args c) st.tree r i in
            rw (e, works.is)
              (record { reply = ap replied agrees.reply; files = agrees.files; session = refl })
      ]

  pub login-Answers :
      (args : Bytes)
      → Answers p
          (client_handle_login srv (some args) st)
          (request (Registry.login (credentials args).0 (credentials args).1) (service r st))
  unfolding client_handle_login request logged_in
  login-Answers args =
      let (u, pw) = credentials args in
      elim (Bool-cases (rejects_username u)) [
        | inl e ↦
            rw (e, login_rejected srv.os srv.datadir u pw st.tree e)
              (record { reply = refl; files = i; session = refl })
        | inr e ↦
            let name = (credentials_bounded args).0 in
            rw
              (
                e,
                works.is,
                login_user-admit srv.os works.kind p short u name e pw st.tree r i st.session,
              )
              (record {
                reply = refl;
                files = i;
                session = admit-logged_in u pw (r u) st.session (take_all 255 u name);
              })
      ]

  removed-Answers :
      (result : Bool × Tree)
      → result.0 ≡ true
      → Cut (account_dir p st.session.username) st.tree result.1
      → Answers p (deleted result st) (
        user_deleted_successfully,
        record { registry = update r st.session.username none; session = no_session },
      )
  unfolding deleted
  removed-Answers (true, t) e c = record {
    reply = refl;
    files = cut-Represents p st.session.username st.tree t c r i;
    session = refl;
  }
  removed-Answers (false, t) e c = cc

  module _ (name : IsNamed st.session) (auth : st.session.authenticated ≡ true) where
    abbrev shell : Bool × Tree
    shell = srv.os.system (codes "rm -rf " ++ account_path srv.datadir st.session.username) st.tree

    below :
        resolve (account_path srv.datadir st.session.username) ≡ account_dir p st.session.username
    below =
        resolved srv st works.short works.literal name auth
        ∙ ap (λ d. st.session.username ∷ codes "accounts" ∷ d)
            (ap resolve works.is ∙ resolve-path_text p st.tree i.clear.2)

    removed : shell.0 ≡ true
    removed =
        works.removes st.session.username st.tree (name.valid auth) (name.nonempty auth)
          (λ e. cc below)

    shell-Cut : Cut (account_dir p st.session.username) st.tree shell.1
    shell-Cut = record {
      outside = λ q h.
          works.rm.outside _ st.tree q (literal_path srv st works.short works.literal name auth)
            (rw below h);
      inside = λ q h.
          works.rm.inside _ st.tree q (literal_path srv st works.short works.literal name auth)
            removed (rw below h);
    }

  delete_promise :
      st.session.authenticated ≡ true
      → request Registry.delete_account (service r st) ≡ (
        user_deleted_successfully,
        record { registry = update r st.session.username none; session = no_session },
      )
  unfolding request
  delete_promise e = rw e

  delete_refused :
      (args : Option Bytes)
      → st.session.authenticated ≡ false
      → Answers p
          (client_handle_delete_account srv args st)
          (request Registry.delete_account (service r st))
  unfolding request client_handle_delete_account
  delete_refused args e = rw e (record { reply = refl; files = i; session = cc })

  pub delete_account-Answers :
      (args : Option Bytes)
      → IsNamed st.session
      → Answers p
          (client_handle_delete_account srv args st)
          (request Registry.delete_account (service r st))
  delete_account-Answers args name = elim (Bool-cases st.session.authenticated) [
    | inl e ↦
        rw (delete_promise e, runs srv st works.short works.literal name e args)
          (removed-Answers (shell name e) (removed name e) (shell-Cut name e))
    | inr e ↦ delete_refused args e
  ]
