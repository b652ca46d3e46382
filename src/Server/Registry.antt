-- ===== src/Server/Registry.antt =====
-- What the commands on accounts promise to a client: a table of names and passwords, of which no
-- file, path or buffer is seen.
pub mod Files
pub mod Added
pub mod Register
pub mod Login
pub mod Delete
pub mod Handlers
pub mod Connection
pub mod Safety
pub mod Race
use thing.Prelude.{
  Bool, true, false, Option, none, some, List, [], ◌∷◌, Bytes, codes, take, if◌then◌else◌,
}
use thing.Commands.{find_command_handler}
use thing.CString.{same, cstr}
use thing.Server.Account.{rejects_username, credentials}
use thing.Server.Connection.{split_command}
use thing.Server.Dispatch
use thing.Server.Dispatch.{ClientHandler, client_commands}
use thing.Server.Types.{
  Session, no_session, Reply, invalid_arguments, invalid_username, username_exists,
  register_success, auth_required, user_deleted_successfully, username_not_found,
  password_incorrect, login_success, logout_success, invalid_command,
}

-- The password of each name that has an account.
abbrev pub Registry : Type 0
Registry = Bytes → Option Bytes

-- The table, changed at one name.
unfoldable pub update : Registry → Bytes → Option Bytes → Registry
update r u p v = if same u v then p else r v

-- The requests of a client that are about accounts. `malformed` is REGISTER or LOGIN without
-- arguments, `unknown` a command that is not of the protocol.
pub data Request : Type 0 where
  register login : Bytes → Bytes → Request
  logout delete_account malformed unknown : Request

pub record Service : Type 0 where
  pub registry : Registry
  pub session : Session

unfoldable pub enroll : Bytes → Bytes → Option Bytes → Registry → Reply × Registry
enroll u p (some q) r = (username_exists, r)
enroll u p none r = (register_success, update r u (some p))

unfoldable pub admit : Bytes → Bytes → Option Bytes → Session → Reply × Session
admit u p none s = (username_not_found, s)
admit u p (some q) s =
    if same p q
    then (login_success, record { username = u; authenticated = true })
    else (password_incorrect, s)

-- The answer to a request, and the service behind it.
unfoldable pub request : Request → Service → Reply × Service
request (register u p) v =
    if rejects_username u
    then (invalid_username, v)
    else let (reply, r) = enroll u p (v.registry u) v.registry in (reply, record v { registry = r })
request (login u p) v =
    if rejects_username u
    then (invalid_username, v)
    else let (reply, s) = admit u p (v.registry u) v.session in (reply, record v { session = s })
request logout v =
    (logout_success, record v { session = record v.session { authenticated = false } })
request delete_account v =
    if v.session.authenticated
    then (
      user_deleted_successfully,
      record { registry = update v.registry v.session.username none; session = no_session },
    )
    else (auth_required, v)
request malformed v = (invalid_arguments, v)
request unknown v = (invalid_command, v)

-- The answers to a row of requests, and the service in the end.
unfoldable pub requests : List Request → Service → List Reply × Service
requests [] v = ([], v)
requests (q ∷ qs) v =
    let (reply, w) = request q v in let (replies, last) = requests qs w in (reply ∷ replies, last)

-- The request that a command of a client makes; ADD_CONNECTION and SET_TRUSTLINE are no requests
-- about accounts.
unfoldable pub request_of : ClientHandler → Option Bytes → Option Request
request_of Dispatch.login none = some malformed
request_of Dispatch.login (some args) = some (login (credentials args).0 (credentials args).1)
request_of Dispatch.register none = some malformed
request_of Dispatch.register (some args) = some (register (credentials args).0 (credentials args).1)
request_of Dispatch.logout args = some logout
request_of Dispatch.delete_account args = some delete_account
request_of Dispatch.add_connection args = none
request_of Dispatch.set_trustline args = none

unfoldable pub asks : Option ClientHandler → Option Bytes → Option Request
asks none args = some unknown
asks (some h) args = request_of h args

-- The request that a read of a client's connection makes.
unfoldable pub meaning : Bytes → Option Request
meaning received =
    let (command, args) = split_command (cstr (take 255 received)) in
    asks (find_command_handler command client_commands) args
