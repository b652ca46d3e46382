-- ===== src/Server/Threads/Untouched.antt =====
-- The commands of a client that does not send the password of an account.
use thing.Prelude.{
  ◌≡◌, ◌≢◌, ◌≤◌, ◌<◌, refl, ap, ◌∙◌, Bool, true, false, not, Option, none, some, ◌∷◌, Bytes, codes,
  length, take, take_all, arith, Bool-cases, inl, inr,
}
use thing.CString.{same, cstr}
use thing.CString.Laws.{same_iff}
use thing.Commands.{find_command_handler}
use thing.Files.Writes.{IsObliging, open_read_iff, read_file}
use thing.Files.{Tree, resolve, is_there, access, open_read, read}
use thing.Server.Account.Delete.{IsLiteralPath, RunsRm, delete_command_lem, literal_path, resolved}
use thing.Server.Account.Login.{dir_of, file_of}
use thing.Server.Account.RoundTrip.{IsPassword, resolve-dir_of, resolve-file_of, stored_password}
use thing.Server.Account.Sessions.{
  IsNamed, logged_in-IsNamed, credentials_bounded, IsNamed-no_session, IsNamed-closed,
}
use thing.Server.Account.{
  rejects_username, check_password, logged_in, credentials, account_path, delete_command,
}
use thing.Server.Connection.{split_command}
use thing.Server.Dispatch
use thing.Server.Dispatch.{ClientHandler, client_commands}
use thing.Server.Registry
use thing.Server.Registry.Delete.{aside_account, aside_password}
use thing.Server.Registry.{Request, request_of, asks, meaning}
use thing.Server.Registry.Files.{account_dir, password_file}
use thing.Server.Threads.Asking.{
  Ends-all, Leaving, KeepsAsking, add_connection-Keeps, set_trustline-Keeps, add_connection-Ends,
  set_trustline-Ends,
}
use thing.Server.Threads.Guarded.{Intact, Intact-unchanged, mkdir-Intact, register_user-Intact}
use thing.Server.Threads.Handlers.{
  read_password, register_user_calls, login_user_calls, register_calls, login_calls, logout_calls,
  delete_account_calls, deleted_session, add_connection_calls, set_trustline_calls,
  run_client_calls, answer_client_calls, handle_request_calls,
}
use thing.Server.Threads.Program.{◌>>=◌, Safe, Safe-bind, Safe-either, Keeps-Ends-Safe}
use thing.Server.Types.{Server, Session, State, Link, Reply, Outcome, login_success, no_session}

-- A session that is not that of `u`.
pub record IsForeign (u : Bytes) (s : Session) : Type 0 where
  pub named : IsNamed s
  pub other : s.authenticated ≡ true → s.username ≢ u

-- The server, an account on it, and what lies outside the program: the system refuses nothing, the
-- shell runs `rm -rf` as documented, and an exchange with another server leaves the account.
pub record Guards (srv : Server) (u q : Bytes) : Type 0 where
  pub kind : IsObliging srv.os
  pub short : length srv.datadir < 256
  pub literal : IsLiteralPath srv.datadir
  pub rm : RunsRm srv.os
  pub accepted : rejects_username u ≡ false
  pub name : length u ≤ 255
  pub apart : u ≢ codes "trustline_incoming"
  pub password : IsPassword q
  pub exchange :
      (l : Link) (request : Bytes) (t : Tree)
      → Intact (resolve srv.datadir) u q t
      → Intact (resolve srv.datadir) u q (srv.net.exchange l request t).1

module _ (srv : Server) (u q : Bytes) (g : Guards srv u q) where
  abbrev I : Tree → Type 0
  I = Intact (resolve srv.datadir) u q

  abbrev Foreign : Outcome × Session → Type 0
  Foreign = Leaving (IsForeign u)

  right_password :
      (pw : Bytes) (t : Tree)
      → I t
      → read_password srv.os (file_of srv.datadir u) pw t ≡ login_success
      → pw ≡ q
  unfolding read_password check_password
  right_password pw t i =
      let path = file_of srv.datadir u in
      let at : resolve path ≡ password_file (resolve srv.datadir) u =
        resolve-file_of srv.os g.kind srv.datadir u g.short g.name
        ∙ ap (◌∷◌ (codes "password"))
            (resolve-dir_of srv.os g.kind srv.datadir u g.short g.name g.accepted) in
      let opens : open_read srv.os path t ≡ true =
        open_read_iff srv.os g.kind path t (λ k. cc (at))
        ∙ rw (at, i.holds) (unfold is_there in refl) in
      let reads : read srv.os path 255 t ≡ some (take 255 q) =
        read_file srv.os g.kind path 255 t q (rw at i.holds) in
      rw (opens, reads, stored_password q g.password) (λ h. (same_iff pw q).0 (ground arith))

  -- LOGIN succeeds only for another name.
  abbrev Lets : Bytes → Reply → Type 0
  Lets v r = r ≡ login_success → (rejects_username v ≡ false) × (v ≢ u)

  login_user-Safe :
      (v pw : Bytes) → (v ≡ u → pw ≢ q) → Safe I (Lets v) (login_user_calls srv.os srv.datadir v pw)
  unfolding login_user_calls ◌>>=◌
  login_user-Safe v pw ne = elim (Bool-cases (rejects_username v)) [
    | inl e ↦ rw e (λ h. cc)
    | inr e ↦ rw e (λ t i. (
      i,
      Safe-either I (Lets v) (not (access srv.os (dir_of srv.datadir v) t)) _ _ (λ h. cc)
          (λ w k. (k, λ h. (e, λ own. ne own (right_password pw w k (rw own at h))))),
    ))
  ]

  logged_in-IsForeign :
      (r : Reply) (v : Bytes) (s : Session)
      → length v ≤ 255
      → Lets v r
      → IsForeign u s
      → IsForeign u (logged_in r v s)
  unfolding logged_in
  logged_in-IsForeign login_success v s l ok f = record {
    named = logged_in-IsNamed login_success v s l (λ h. (ok refl).0) f.named;
    other = λ h. rw (take_all 255 v l) (ok refl).1;
  }
  logged_in-IsForeign _ v s l ok f = f

  asking : KeepsAsking srv I
  asking = record { mkdir = mkdir-Intact srv.os (resolve srv.datadir) u q; exchange = g.exchange }

  pub no_session-IsForeign : IsForeign u no_session
  no_session-IsForeign = record { named = IsNamed-no_session; other = λ h. cc }

  deleted-IsForeign :
      (gone : Bool) (s : Session) → IsForeign u s → IsForeign u (deleted_session gone s).1
  unfolding deleted_session
  deleted-IsForeign true s f = no_session-IsForeign
  deleted-IsForeign false s f = f

  -- DELETE_ACCOUNT of another session.
  shell-Intact :
      (s : Session) (t : Tree)
      → IsForeign u s
      → s.authenticated ≡ true
      → I t
      → I (srv.os.system (delete_command srv s) t).1
  shell-Intact s t f auth i =
      let st : State = record { session = s; tree = t } in
      let other : same s.username u ≡ false = elim (Bool-cases (same s.username u)) [
        | inl own ↦ absurd (f.other auth ((same_iff s.username u).0 own))
        | inr k ↦ k
      ] in
      let path = account_path srv.datadir s.username in
      let plain : IsLiteralPath path = literal_path srv st g.short g.literal f.named auth in
      let at : resolve path ≡ account_dir (resolve srv.datadir) s.username =
        resolved srv st g.short g.literal f.named auth in
      rw (delete_command_lem srv st g.short g.literal f.named auth) (
        Intact-unchanged srv.os (resolve srv.datadir) u q t _
          (g.rm.outside path t _ plain
            (rw at (aside_account (resolve srv.datadir) s.username u other)))
          (g.rm.outside path t _ plain
            (rw at (aside_password (resolve srv.datadir) s.username u other)))
          i)

  delete_account-Safe :
      (args : Option Bytes) (s : Session)
      → IsForeign u s
      → Safe I Foreign (delete_account_calls srv args s)
  unfolding delete_account_calls ◌>>=◌
  delete_account-Safe args s f = elim (Bool-cases s.authenticated) [
    | inl e ↦ simp e (λ t i.
        (shell-Intact s t f e i, deleted-IsForeign (srv.os.system (delete_command srv s) t).0 s f))
    | inr e ↦ simp e f
  ]

  register-Safe :
      (args : Option Bytes) (s : Session)
      → IsForeign u s
      → Safe I Foreign (register_calls srv args s)
  unfolding register_calls
  register-Safe none s f = f
  register-Safe (some a) s f =
      let (v, pw) = credentials a in
      let m = register_user_calls srv.os srv.datadir v pw in
      Safe-bind I (λ r. Unit {0}) Foreign m _
        (Keeps-Ends-Safe I (λ r. Unit {0}) m
          (register_user-Intact srv.os g.kind srv.datadir g.short u q g.accepted g.name v pw
            (credentials_bounded a).0)
          (Ends-all (λ r. Unit {0}) m (λ r. tt)))
        (λ r x. f)

  pub run_client-Safe :
      (h : ClientHandler) (args : Option Bytes) (s : Session)
      → request_of h args ≢ some (Registry.login u q)
      → IsForeign u s
      → Safe I Foreign (run_client_calls srv h args s)
  unfolding run_client_calls request_of login_calls logout_calls
  run_client-Safe Dispatch.login none s ne f = f
  run_client-Safe Dispatch.login (some a) s ne f =
      let (v, pw) = credentials a in
      Safe-bind I (Lets v) Foreign (login_user_calls srv.os srv.datadir v pw) _
        (login_user-Safe v pw (λ own right. ne cc))
        (λ r ok. logged_in-IsForeign r v s (credentials_bounded a).0 ok f)
  run_client-Safe Dispatch.register args s ne f = register-Safe args s f
  run_client-Safe Dispatch.logout args s ne f = record {
    named = IsNamed-closed (record s { authenticated = false }) refl;
    other = λ h. cc;
  }
  run_client-Safe Dispatch.delete_account args s ne f = delete_account-Safe args s f
  run_client-Safe Dispatch.add_connection args s ne f =
      Keeps-Ends-Safe I Foreign (add_connection_calls srv args s)
        (add_connection-Keeps srv I asking args s) (add_connection-Ends srv (IsForeign u) args s f)
  run_client-Safe Dispatch.set_trustline args s ne f =
      Keeps-Ends-Safe I Foreign (set_trustline_calls srv args s)
        (set_trustline-Keeps srv I asking args s) (set_trustline-Ends srv (IsForeign u) args s f)

  answer_client-Safe :
      (h : Option ClientHandler) (args : Option Bytes) (s : Session)
      → asks h args ≢ some (Registry.login u q)
      → IsForeign u s
      → Safe I Foreign (answer_client_calls srv h args s)
  unfolding answer_client_calls asks
  answer_client-Safe none args s ne f = f
  answer_client-Safe (some h) args s ne f = run_client-Safe h args s ne f

  -- A read that is not LOGIN with that name and that password leaves the account, and the session is not
  -- its owner's afterwards, whatever the other threads do that leave the account.
  pub handle_request-Safe :
      (received : Bytes) (s : Session)
      → meaning received ≢ some (Registry.login u q)
      → IsForeign u s
      → Safe I Foreign (handle_request_calls srv received s)
  unfolding handle_request_calls meaning
  handle_request-Safe received s ne f =
      let (command, args) = split_command (cstr (take 255 received)) in
      answer_client-Safe (find_command_handler command client_commands) args s ne f
