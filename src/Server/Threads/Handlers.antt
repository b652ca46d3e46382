-- ===== src/Server/Threads/Handlers.antt =====
-- The handlers of Server/Account, Server/Trust and Server/Peer, with each call of the system apart.
use thing.Prelude.{
  ℕ, zero, suc, Bool, true, false, not, ◌&&◌, Option, none, some, List, [], ◌∷◌, Bytes, codes,
  length, if◌then◌else◌, take,
}
use thing.CString.{cstr, same, is_empty, snprintf}
use thing.Commands.{find_command_handler}
use thing.Database.{parent_text}
use thing.Files.{Tree, Os, access, stat, mkdir, open_create, open_read, read, write, unlink, rmdir}
use thing.Format.{is_valid_username, is_valid_port, is_positive, atoi}
use thing.Scan.{sscanf, field}
use thing.Server.Account.{
  account_path, password_path, rejects_username, credentials, check_password, logged_in,
  delete_command,
}
use thing.Server.Connection.{split_command}
use thing.Server.Dispatch
use thing.Server.Dispatch.{
  ClientHandler, client_commands, AsServerHandler, answer_set_trustline, server_as_server_commands,
}
use thing.Server.Remote.{server_as_client_dispatch_command, server_as_client_connection_handler}
use thing.Server.Threads.Program.{Program, ◌>>=◌, return, query, change, atomic}
use thing.Server.Trust.{connection_path, or_default, or_none, trustline_args, local_address}
use thing.Server.Types.{
  Session, Link, Server, Reply, Outcome, replied, faulted, invalid_arguments, invalid_username,
  invalid_command, username_exists, directory_creation_failed, password_file_creation_failed,
  password_write_failed, register_success, auth_required, failed_to_delete_user,
  user_deleted_successfully, username_not_found, password_file_not_found, logout_success,
  invalid_port, connection_failed, cannot_add_self, account_not_found, already_connected,
  connection_added, forwarded, server_default_port, default_user,
}

module _ (os : Os) where
  unfoldable pub make_dir_calls : Bytes → Program Bool
  make_dir_calls dir = do
    there ← query (stat os dir)
    if there then return true else atomic (mkdir os dir)

  unfoldable pub below_calls : Bytes → Bytes → Program Bool → Program Bool
  below_calls path dir made = do
    fine ← if is_empty dir then return true else made
    if fine then make_dir_calls path else return false

  unfoldable pub make_dirs_on_calls : ℕ → Bytes → Program Bool
  make_dirs_on_calls zero path = return false
  make_dirs_on_calls (suc fuel) path =
      let made = make_dirs_on_calls fuel (parent_text path) in
      below_calls path (parent_text path) made

  unfoldable pub make_dirs_calls : Bytes → Program Bool
  make_dirs_calls path = make_dirs_on_calls (suc (length path)) path

  -- `open` and `write` of the password file: `none` if it cannot be opened, else whether it could be
  -- written.
  unfoldable pub written_password : Bytes → Bytes → Tree → Option Bool × Tree
  written_password path password t =
      let (opened, u) = open_create os path t in
      let (written, v) = write os path password u in if opened then (some written, v) else (none, u)

  -- What follows on it: the file and the directory are removed again.
  unfoldable pub after_password : Bytes → Bytes → Option Bool → Program Reply
  after_password user_dir path none = do
    _ ← change (rmdir os user_dir)
    return password_file_creation_failed
  after_password user_dir path (some false) = do
    _ ← change (unlink os path)
    _ ← change (rmdir os user_dir)
    return password_write_failed
  after_password user_dir path (some true) = return register_success

  unfoldable pub store_password_calls : Bytes → Bytes → Bytes → Program Reply
  store_password_calls user_dir path password = do
    written ← atomic (written_password path password)
    after_password user_dir path written

  unfoldable pub create_account_calls : Bytes → Bytes → Program Reply
  create_account_calls user_dir password = do
    made ← make_dirs_calls user_dir
    if made
        then store_password_calls user_dir (snprintf 1024 (password_path user_dir)) password
        else return directory_creation_failed

  unfoldable pub register_user_calls : Bytes → Bytes → Bytes → Program Reply
  register_user_calls datadir username password =
      if rejects_username username then return invalid_username else do
        there ← query (access os (snprintf 768 (account_path datadir username)))
        if there
            then return username_exists
            else create_account_calls (snprintf 768 (account_path datadir username)) password

  -- `open` and `read` of the password file, and the comparison.
  unfoldable pub read_password : Bytes → Bytes → Tree → Reply
  read_password path password t =
      if not (open_read os path t)
      then password_file_not_found
      else check_password password (read os path 255 t)

  unfoldable pub login_user_calls : Bytes → Bytes → Bytes → Program Reply
  login_user_calls datadir username password =
      let user_dir = snprintf 768 (account_path datadir username) in
      if rejects_username username then return invalid_username else do
        there ← query (access os user_dir)
        if not there
            then return username_not_found
            else query (read_password (snprintf 1024 (password_path user_dir)) password)

unfoldable pub deleted_session : Bool → Session → Outcome × Session
deleted_session true s =
    (replied user_deleted_successfully, record { username = []; authenticated = false })
deleted_session false s = (replied failed_to_delete_user, s)

-- The response is returned as it is; at `none` the request faulted, or `strlen` reads through NULL.
unfoldable pub returned_response : Option Bytes → Session → Outcome × Session
returned_response none s = (faulted, s)
returned_response (some response) s = (replied (forwarded response), s)

module _ (srv : Server) where
  unfoldable pub register_calls : Option Bytes → Session → Program (Outcome × Session)
  register_calls none s = return (replied invalid_arguments, s)
  register_calls (some args) s = do
    reply ← register_user_calls srv.os srv.datadir (credentials args).0 (credentials args).1
    return (replied reply, s)

  unfoldable pub login_calls : Option Bytes → Session → Program (Outcome × Session)
  login_calls none s = return (replied invalid_arguments, s)
  login_calls (some args) s = do
    reply ← login_user_calls srv.os srv.datadir (credentials args).0 (credentials args).1
    return (replied reply, logged_in reply (credentials args).0 s)

  unfoldable pub logout_calls : Option Bytes → Session → Program (Outcome × Session)
  logout_calls args s = return (replied logout_success, record s { authenticated = false })

  unfoldable pub delete_account_calls : Option Bytes → Session → Program (Outcome × Session)
  delete_account_calls args s =
      if not s.authenticated
      then return (replied auth_required, s)
      else do gone ← atomic (srv.os.system (delete_command srv s)); return (deleted_session gone s)

  unfoldable pub add_account_calls : Bytes → Bytes → Bytes → Session → Program Reply
  add_account_calls username address port_str session = do
    let user_dir =
        snprintf 1280 (connection_path srv.datadir session.username address port_str username)
    there ← query (access srv.os user_dir)
    if there then return already_connected else do
      made ← make_dirs_calls srv.os user_dir
      return (if made then connection_added else directory_creation_failed)

  unfoldable pub finish_connection_calls :
      Bytes → Bytes → Bytes → Option Bytes → Session → Program (Outcome × Session)
  finish_connection_calls remote address port_str none s = return (faulted, s)
  finish_connection_calls remote address port_str (some response) s =
      if not (same response (codes "ACCOUNT_EXISTS"))
      then return (replied account_not_found, s)
      else if same address (codes "localhost") && same remote s.username
      then return (replied cannot_add_self, s)
      else do reply ← add_account_calls remote address port_str s; return (replied reply, s)

  unfoldable pub connect_and_ask_calls :
      Bytes → Bytes → Bytes → Session → Program (Outcome × Session)
  connect_and_ask_calls remote address port_str s =
      let ssl : Link = record { host = address; port = atoi port_str } in
      if not (srv.net.connects ssl) then return (replied connection_failed, s) else do
        response ←
            atomic (server_as_client_dispatch_command srv.net ssl (codes "ACCOUNT_EXISTS") remote)
        finish_connection_calls remote address port_str response s

  unfoldable pub add_connection_calls : Option Bytes → Session → Program (Outcome × Session)
  add_connection_calls none s =
      if not s.authenticated then return (replied auth_required, s) else return (faulted, s)
  add_connection_calls (some args) s =
      let fields = sscanf (255 ∷ 255 ∷ 5 ∷ []) args in
      let remote = or_default (field [] fields 0) default_user in
      let port_str = or_default (field [] fields 2) server_default_port in
      if not s.authenticated
      then return (replied auth_required, s)
      else if not (is_valid_username remote)
      then return (replied invalid_username, s)
      else if not (is_positive (atoi port_str))
      then return (replied invalid_port, s)
      else connect_and_ask_calls remote (local_address (field [] fields 1)) port_str s

  unfoldable pub request_trustline_calls :
      Bytes → Bytes → Bytes → Bytes → Session → Program (Outcome × Session)
  request_trustline_calls remote address port_str size s =
      if not (is_valid_username remote)
      then return (replied invalid_username, s)
      else if not (is_valid_port port_str)
      then return (replied invalid_port, s)
      else do
        response ← atomic (
            server_as_client_connection_handler srv.net
              (record { host = address; port = atoi port_str }) (codes "SET_TRUSTLINE")
              (snprintf 1024 (trustline_args s.username remote size)))
        return (returned_response response s)

  unfoldable pub trustline_fields_calls : List Bytes → Session → Program (Outcome × Session)
  trustline_fields_calls (remote ∷ address ∷ port_str ∷ size ∷ []) s =
      request_trustline_calls remote (or_none address (codes "localhost"))
        (or_none port_str server_default_port) size s
  trustline_fields_calls _ s = return (replied invalid_arguments, s)

  unfoldable pub set_trustline_calls : Option Bytes → Session → Program (Outcome × Session)
  set_trustline_calls none s =
      if not s.authenticated then return (replied auth_required, s) else return (faulted, s)
  set_trustline_calls (some args) s =
      if not s.authenticated
      then return (replied auth_required, s)
      else trustline_fields_calls (sscanf (255 ∷ 255 ∷ 5 ∷ 255 ∷ []) args) s

  unfoldable pub run_client_calls :
      ClientHandler → Option Bytes → Session → Program (Outcome × Session)
  run_client_calls Dispatch.login = login_calls
  run_client_calls Dispatch.register = register_calls
  run_client_calls Dispatch.logout = logout_calls
  run_client_calls Dispatch.delete_account = delete_account_calls
  run_client_calls Dispatch.add_connection = add_connection_calls
  run_client_calls Dispatch.set_trustline = set_trustline_calls

  unfoldable pub answer_client_calls :
      Option ClientHandler → Option Bytes → Session → Program (Outcome × Session)
  answer_client_calls none args s = return (replied invalid_command, s)
  answer_client_calls (some h) args s = run_client_calls h args s

  -- What one read of a client's connection leads to.
  unfoldable pub handle_request_calls : Bytes → Session → Program (Outcome × Session)
  handle_request_calls received s =
      let (command, arguments) = split_command (cstr (take 255 received)) in
      answer_client_calls (find_command_handler command client_commands) arguments s
