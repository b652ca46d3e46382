-- ===== src/Server/Trust.antt =====
-- src/server/client_services/client_command_handlers.c: ADD_CONNECTION and SET_TRUSTLINE.
pub mod Sessions
pub mod Arguments
use thing.Prelude.{
  ℕ, Bool, true, false, not, ◌&&◌, ◌||◌, Option, none, some, List, [], ◌∷◌, ◌++◌, Bytes, codes,
  if◌then◌else◌,
}
use thing.CString.{same, is_empty, snprintf}
use thing.Scan.{sscanf, field}
use thing.Format.{is_valid_username, is_valid_port, is_positive, atoi}
use thing.Files.{Tree, Os, access}
use thing.Database.{make_dirs}
use thing.Server.Remote.{server_as_client_dispatch_command, server_as_client_connection_handler}
use thing.Server.Types.{
  Session, Link, Server, State, Reply, Outcome, replied, faulted, auth_required, invalid_arguments,
  invalid_username, invalid_port, connection_failed, cannot_add_self, account_not_found,
  already_connected, connection_added, directory_creation_failed, forwarded, server_address,
  server_default_port, default_user,
}

-- `"%s/accounts/%s/peers/%s/%s/%s"`
unfoldable pub connection_path : Bytes → Bytes → Bytes → Bytes → Bytes → Bytes
connection_path datadir local address port_str username =
    datadir
    ++ codes "/accounts/"
    ++ local
    ++ codes "/peers/"
    ++ address
    ++ codes "/"
    ++ port_str
    ++ codes "/"
    ++ username

-- `if (s[0] == '\0') strcpy(s, value);`
unfoldable pub or_default : Bytes → Bytes → Bytes
or_default s value = if is_empty s then value else s

-- `if (strcmp(s, "none") == 0) strcpy(s, value);`
unfoldable pub or_none : Bytes → Bytes → Bytes
or_none s value = if same s (codes "none") then value else s

-- `"%s %s %s"`
unfoldable pub trustline_args : Bytes → Bytes → Bytes → Bytes
trustline_args local remote size = local ++ b' ' ∷ (remote ++ b' ' ∷ size)

unfoldable pub made_connection : (Bool × Tree) → Reply × Tree
made_connection (true, t) = (connection_added, t)
made_connection (false, t) = (directory_creation_failed, t)

-- `if (server_address[0] == '\0' || strcmp(server_address, SERVER_ADDRESS) == 0)`
unfoldable pub local_address : Bytes → Bytes
local_address address =
    if is_empty address || same address server_address then codes "localhost" else address

-- The response is returned as it is. `none` is the fault of the request, or NULL, which the
-- dispatcher's `strlen` reads through.
unfoldable pub returned : (Option Bytes × Tree) → Session → Outcome × State
returned (none, t) s = (faulted, record { session = s; tree = t })
returned (some response, t) s = (replied (forwarded response), record { session = s; tree = t })

module _ (srv : Server) where
  unfoldable pub add_account : Bytes → Bytes → Bytes → Session → Tree → Reply × Tree
  add_account username address port_str session t =
      let user_dir =
        snprintf 1280 (connection_path srv.datadir session.username address port_str username) in
      if access srv.os user_dir t
      then (already_connected, t)
      else made_connection (make_dirs srv.os user_dir t)

  -- From the response on; `none` is the fault of the request, or NULL, which `strcmp` reads through.
  unfoldable pub finish_connection :
      Bytes → Bytes → Bytes → (Option Bytes × Tree) → Session → Outcome × State
  finish_connection remote address port_str (none, t) s =
      (faulted, record { session = s; tree = t })
  finish_connection remote address port_str (some response, t) s =
      if not (same response (codes "ACCOUNT_EXISTS"))
      then (replied account_not_found, record { session = s; tree = t })
      else if same address (codes "localhost") && same remote s.username
      then (replied cannot_add_self, record { session = s; tree = t })
      else let (reply, u) = add_account remote address port_str s t in
        (replied reply, record { session = s; tree = u })

  unfoldable pub connect_and_ask : Bytes → Bytes → Bytes → State → Outcome × State
  connect_and_ask remote address port_str st =
      let ssl : Link = record { host = address; port = atoi port_str } in
      if not (srv.net.connects ssl)
      then (replied connection_failed, st)
      else finish_connection remote address port_str
          (server_as_client_dispatch_command srv.net ssl (codes "ACCOUNT_EXISTS") remote st.tree)
          st.session

  -- The parsed arguments, after their defaults.
  unfoldable pub add_connection : Bytes → Bytes → Bytes → State → Outcome × State
  add_connection remote address port_str st =
      if not (is_valid_username remote)
      then (replied invalid_username, st)
      else if not (is_positive (atoi port_str))
      then (replied invalid_port, st)
      else connect_and_ask remote address port_str st

  -- `sscanf` reads through the null pointer if there are no arguments.
  unfoldable pub client_handle_add_connection : Option Bytes → State → Outcome × State
  client_handle_add_connection args st =
      if not st.session.authenticated then (replied auth_required, st) else elim args [
        | none ↦ (faulted, st)
        | some a ↦
            let fields = sscanf (255 ∷ 255 ∷ 5 ∷ []) a in
            add_connection (or_default (field [] fields 0) default_user)
              (local_address (field [] fields 1))
              (or_default (field [] fields 2) server_default_port) st
      ]

  -- The four arguments, after their defaults.
  unfoldable pub request_trustline : Bytes → Bytes → Bytes → Bytes → State → Outcome × State
  request_trustline remote address port_str size st =
      if not (is_valid_username remote)
      then (replied invalid_username, st)
      else if not (is_valid_port port_str)
      then (replied invalid_port, st)
      else returned
          (server_as_client_connection_handler srv.net
            (record { host = address; port = atoi port_str }) (codes "SET_TRUSTLINE")
            (snprintf 1024 (trustline_args st.session.username remote size)) st.tree)
          st.session

  -- `parsed_args != 4`; the tests and defaults of the source stand in the order of its lines.
  unfoldable pub set_trustline_fields : List Bytes → State → Outcome × State
  set_trustline_fields (remote ∷ address ∷ port_str ∷ size ∷ []) st =
      request_trustline remote (or_none address (codes "localhost"))
        (or_none port_str server_default_port) size st
  set_trustline_fields _ st = (replied invalid_arguments, st)

  unfoldable pub client_handle_set_trustline : Option Bytes → State → Outcome × State
  client_handle_set_trustline args st =
      if not st.session.authenticated then (replied auth_required, st) else elim args [
        | none ↦ (faulted, st)
        | some a ↦ set_trustline_fields (sscanf (255 ∷ 255 ∷ 5 ∷ 255 ∷ []) a) st
      ]
