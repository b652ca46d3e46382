-- ===== src/Server/Account.antt =====
-- src/server/client_services/client_command_handlers.c: REGISTER, DELETE_ACCOUNT, LOGIN and LOGOUT.
pub mod Sessions
pub mod Login
pub mod Paths
pub mod RoundTrip
pub mod Register
pub mod Delete
use thing.Prelude.{
  ℕ, zero, suc, ◌-◌, Bool, true, false, not, ◌&&◌, ◌||◌, Option, none, some, List, [], ◌∷◌, ◌++◌,
  Bytes, codes, take, ◌==◌, if◌then◌else◌,
}
use thing.CString.{cstr, same, is_empty, snprintf}
use thing.Scan.{sscanf, field}
use thing.Format.{is_valid_username}
use thing.Files.{Tree, Os, access, open_create, open_read, read, write, unlink, rmdir}
use thing.Database.{make_dirs}
use thing.Server.Types.{
  Session, Server, State, Reply, Outcome, replied, invalid_arguments, invalid_username,
  username_exists, directory_creation_failed, password_file_creation_failed, password_write_failed,
  register_success, auth_required, failed_to_delete_user, user_deleted_successfully,
  username_not_found, password_file_not_found, password_read_failed, password_incorrect,
  login_success, logout_success,
}

-- `"%s/accounts/%s"`, before it is cut to its buffer.
unfoldable pub account_path : Bytes → Bytes → Bytes
account_path datadir username = datadir ++ codes "/accounts/" ++ username

-- `"%s/password"`
unfoldable pub password_path : Bytes → Bytes
password_path user_dir = user_dir ++ codes "/password"

-- `username[0] == '\0' || !isValidUsername(username)`
unfoldable pub rejects_username : Bytes → Bool
rejects_username username = is_empty username || not (is_valid_username username)

-- `sscanf(args, "%255s %255s", username, password)`, with both buffers empty before
unfoldable pub credentials : Bytes → Bytes × Bytes
credentials args =
    let fields = sscanf (255 ∷ 255 ∷ []) args in (field [] fields 0, field [] fields 1)

-- The bytes without a newline at their end.
unfoldable pub chomp : Bytes → Bytes
chomp [] = []
chomp (c ∷ []) = if c == b'\n' then [] else c ∷ []
chomp (c ∷ d ∷ s) = c ∷ chomp (d ∷ s)

unfoldable pub check_password : Bytes → Option Bytes → Reply
check_password password none = password_read_failed
check_password password (some bytes) =
    if same password (cstr (chomp bytes)) then login_success else password_incorrect

module _ (os : Os) where
  unfoldable pub write_password : Bytes → Bytes → Bytes → Tree → Reply × Tree
  write_password user_dir path password t =
      let (written, u) = write os path password t in
      if written
      then (register_success, u)
      else (password_write_failed, rmdir os user_dir (unlink os path u))

  unfoldable pub store_password : Bytes → Bytes → Bytes → Tree → Reply × Tree
  store_password user_dir path password t =
      let (opened, u) = open_create os path t in
      if opened
      then write_password user_dir path password u
      else (password_file_creation_failed, rmdir os user_dir u)

  unfoldable pub create_account : Bytes → Bytes → Tree → Reply × Tree
  create_account user_dir password t =
      let (made, u) = make_dirs os user_dir t in
      if made
      then store_password user_dir (snprintf 1024 (password_path user_dir)) password u
      else (directory_creation_failed, u)

  unfoldable pub register_user : Bytes → Bytes → Bytes → Tree → Reply × Tree
  register_user datadir username password t =
      if rejects_username username
      then (invalid_username, t)
      else if access os (snprintf 768 (account_path datadir username)) t
      then (username_exists, t)
      else create_account (snprintf 768 (account_path datadir username)) password t

  -- The reply of LOGIN, which changes no file.
  unfoldable pub login_user : Bytes → Bytes → Bytes → Tree → Reply
  login_user datadir username password t =
      let user_dir = snprintf 768 (account_path datadir username) in
      let path = snprintf 1024 (password_path user_dir) in
      if rejects_username username
      then invalid_username
      else if not (access os user_dir t)
      then username_not_found
      else if not (open_read os path t)
      then password_file_not_found
      else check_password password (read os path 255 t)

-- `strncpy(session->username, username, 255)` and `session->authenticated = 1`
unfoldable pub logged_in : Reply → Bytes → Session → Session
logged_in login_success username s = record { username = take 255 username; authenticated = true }
logged_in _ username s = s

unfoldable pub deleted : (Bool × Tree) → State → Outcome × State
deleted (true, t) st = (
  replied user_deleted_successfully,
  record { session = record { username = []; authenticated = false }; tree = t },
)
deleted (false, t) st = (replied failed_to_delete_user, record st { tree = t })

module _ (srv : Server) where
  unfoldable pub client_handle_register : Option Bytes → State → Outcome × State
  client_handle_register none st = (replied invalid_arguments, st)
  client_handle_register (some args) st =
      let (username, password) = credentials args in
      let (reply, t) = register_user srv.os srv.datadir username password st.tree in
      (replied reply, record st { tree = t })

  unfoldable pub client_handle_login : Option Bytes → State → Outcome × State
  client_handle_login none st = (replied invalid_arguments, st)
  client_handle_login (some args) st =
      let (username, password) = credentials args in
      let reply = login_user srv.os srv.datadir username password st.tree in
      (replied reply, record st { session = logged_in reply username st.session })

  unfoldable pub client_handle_logout : Option Bytes → State → Outcome × State
  client_handle_logout args st =
      (replied logout_success, record st { session = record st.session { authenticated = false } })

  -- The command that DELETE_ACCOUNT hands to the shell.
  unfoldable pub delete_command : Session → Bytes
  delete_command s =
      snprintf 2048 (codes "rm -rf " ++ snprintf 1024 (account_path srv.datadir s.username))

  unfoldable pub client_handle_delete_account : Option Bytes → State → Outcome × State
  client_handle_delete_account args st =
      if not st.session.authenticated
      then (replied auth_required, st)
      else deleted (srv.os.system (delete_command st.session) st.tree) st
