-- ===== src/Server/Threads/Alone.antt =====
-- A program that no other thread interrupts does what the handler does that it stands for.
use thing.Prelude.{
  ℕ, zero, suc, ◌≡◌, refl, ap, ◌∙◌, Bool, true, false, not, Option, none, some, Bytes, length,
  if◌then◌else◌,
}
use thing.CString.{is_empty, snprintf}
use thing.Database.{parent_text, make_dir, below, make_dirs_on, make_dirs}
use thing.Files.{Tree, Os, access, stat, open_create, write, unlink, rmdir}
use thing.Server.Account.{
  account_path, password_path, rejects_username, write_password, store_password, create_account,
  register_user, login_user,
}
use thing.Server.Threads.Handlers.{
  make_dir_calls, below_calls, make_dirs_on_calls, make_dirs_calls, written_password,
  after_password, store_password_calls, create_account_calls, register_user_calls, read_password,
  login_user_calls,
}
use thing.Server.Threads.Program.{Program, done, ◌>>=◌, run, run-bind, run-if, run-if_still}
use thing.Server.Types.{register_success, password_write_failed, password_file_creation_failed}

module _ (os : Os) where
  run-make_dir : (dir : Bytes) (t : Tree) → run (make_dir_calls os dir) t ≡ make_dir os dir t
  unfolding make_dir_calls make_dir run ◌>>=◌
  run-make_dir dir t = run-if (stat os dir t) _ _ t refl refl

  run-below :
      (path dir : Bytes) (made : Program Bool) (t : Tree)
      → run (below_calls os path dir made) t ≡ below os path dir (run made t) t
  unfolding below_calls below
  run-below path dir made t =
      run-bind (if is_empty dir then done true else made) _ t
      ∙ ap (λ (r : Bool × Tree). run (if r.0 then make_dir_calls os path else done false) r.1)
          (run-if (is_empty dir) (done true) made t {x = (true, t)} (unfold run in refl) refl)
      ∙ run-if (if is_empty dir then (true, t) else run made t).0 _ _
          (if is_empty dir then (true, t) else run made t).1
          (run-make_dir path (if is_empty dir then (true, t) else run made t).1)
          (unfold run in refl)

  run-make_dirs_on :
      (fuel : ℕ) (path : Bytes) (t : Tree)
      → run (make_dirs_on_calls os fuel path) t ≡ make_dirs_on os fuel path t
  unfolding make_dirs_on_calls make_dirs_on
  run-make_dirs_on zero path t = unfold run in refl
  run-make_dirs_on (suc fuel) path t =
      run-below path (parent_text path) (make_dirs_on_calls os fuel (parent_text path)) t
      ∙ rw (run-make_dirs_on fuel (parent_text path) t)

  pub run-make_dirs :
      (path : Bytes) (t : Tree) → run (make_dirs_calls os path) t ≡ make_dirs os path t
  run-make_dirs path t =
      unfold make_dirs_calls make_dirs in run-make_dirs_on (suc (length path)) path t

  run-after_password :
      (user_dir path : Bytes) (written : Bool) (u : Tree)
      → run (after_password os user_dir path (some written)) u ≡ (
          if written
          then (register_success, u)
          else (password_write_failed, rmdir os user_dir (unlink os path u)))
  unfolding after_password run ◌>>=◌
  run-after_password user_dir path true u = refl
  run-after_password user_dir path false u = refl

  -- The opened file, or none, and the write.
  abbrev opened_password : Bytes → Bytes → (Bool × Tree) → Option Bool × Tree
  opened_password path password r =
      if r.0
      then (some (write os path password r.1).0, (write os path password r.1).1)
      else (none, r.1)

  run-written :
      (user_dir path password : Bytes) (r : Bool × Tree)
      → run
          (after_password os user_dir path (opened_password path password r).0)
          (opened_password path password r).1
        ≡ (if r.0
            then write_password os user_dir path password r.1
            else (password_file_creation_failed, rmdir os user_dir r.1))
  unfolding write_password
  run-written user_dir path password (true, u) =
      run-after_password user_dir path (write os path password u).0 (write os path password u).1
  run-written user_dir path password (false, u) = unfold after_password run ◌>>=◌ in refl

  run-store_password :
      (user_dir path password : Bytes) (t : Tree)
      → run (store_password_calls os user_dir path password) t
        ≡ store_password os user_dir path password t
  unfolding store_password_calls store_password written_password run ◌>>=◌
  run-store_password user_dir path password t =
      run-written user_dir path password (open_create os path t)

  pub run-create_account :
      (user_dir password : Bytes) (t : Tree)
      → run (create_account_calls os user_dir password) t ≡ create_account os user_dir password t
  unfolding create_account_calls create_account
  run-create_account user_dir password t =
      run-bind (make_dirs_calls os user_dir) _ t
      ∙ rw (run-make_dirs user_dir t) (
          run-if (make_dirs os user_dir t).0 _ _ (make_dirs os user_dir t).1
            (run-store_password user_dir (snprintf 1024 (password_path user_dir)) password
              (make_dirs os user_dir t).1)
            (unfold run in refl))

  pub run-register_user :
      (datadir username password : Bytes) (t : Tree)
      → run (register_user_calls os datadir username password) t
        ≡ register_user os datadir username password t
  unfolding register_user_calls register_user run ◌>>=◌
  run-register_user datadir username password t =
      let user_dir = snprintf 768 (account_path datadir username) in
      run-if (rejects_username username) _ _ t refl
        (run-if (access os user_dir t) _ _ t refl (run-create_account user_dir password t))

  pub run-login_user :
      (datadir username password : Bytes) (t : Tree)
      → run (login_user_calls os datadir username password) t
        ≡ (login_user os datadir username password t, t)
  unfolding login_user_calls login_user read_password run ◌>>=◌
  run-login_user datadir username password t =
      let user_dir = snprintf 768 (account_path datadir username) in
      run-if_still (rejects_username username) _ _ t refl
        (run-if_still (not (access os user_dir t)) _ _ t refl refl)
