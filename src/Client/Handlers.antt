-- ===== src/Client/Handlers.antt =====
-- src/client/command_handlers.c: what each command asks the user for, and what it sends.
use thing.Prelude.{Option, none, some, [], ◌∷◌, ◌++◌, Bytes, codes, if◌then◌else◌}
use thing.CString.{cstr, snprintf, is_empty}
use thing.Format.{is_valid_username, is_valid_argument, is_valid_port, is_number}
use thing.Client.Console.{
  Shown, invalid_characters, invalid_username, invalid_address, invalid_port, invalid_size,
  server_response, connection_closed, ssl_read_error, no_server_response, no_response, Connection,
  faulted, M, ◌>>=◌, return, show, prompt, ask, exchanged,
}

-- `"%s %s %s\n"`, in its buffer of 1024 bytes
unfoldable pub login_request : Bytes → Bytes → Bytes → Bytes
login_request command username password =
    snprintf 1024 (command ++ (b' ' ∷ (username ++ (b' ' ∷ (password ++ (b'\n' ∷ []))))))

-- `"%s %s"`, in its buffer of 512 bytes
unfoldable pub delete_request : Bytes → Bytes
delete_request username = snprintf 512 (codes "DELETE_ACCOUNT" ++ (b' ' ∷ username))

-- `if (buffer[0] == '\0') strcpy(buffer, "none");`
unfoldable pub none_if_empty : Bytes → Bytes
none_if_empty buffer = if is_empty buffer then codes "none" else buffer

pub record Details : Type 0 where
  pub username : Bytes
  pub server_address : Bytes
  pub port : Bytes

-- `"ADD_CONNECTION %s %s %s"`, in its buffer of 512 bytes. An empty text is printed as it is.
unfoldable pub add_connection_request : Details → Bytes
add_connection_request d = snprintf 512 (
    codes "ADD_CONNECTION"
    ++ (b' ' ∷ (d.username ++ (b' ' ∷ (d.server_address ++ (b' ' ∷ d.port))))))

-- `"SET_TRUSTLINE %s %s %s %s"`, in its buffer of 1280 bytes
unfoldable pub set_trustline_request : Details → Bytes → Bytes
set_trustline_request d size = snprintf 1280 (
    codes "SET_TRUSTLINE"
    ++ (b' ' ∷ (d.username ++ (b' ' ∷ (d.server_address ++ (b' ' ∷ (d.port ++ (b' ' ∷ size))))))))

-- What is shown of an answer: of LOGIN and REGISTER, which write a NUL in front of the buffer at an
-- error; of LOGOUT and DELETE_ACCOUNT; and of the other two.
unfoldable pub show_unchecked : {S : Type 0} → Option Bytes → M S (Unit {0})
unfolding show
show_unchecked none c = faulted c
show_unchecked (some response) c = show (server_response (cstr response)) c

unfoldable pub show_checked : {S : Type 0} → Option Bytes → M S (Unit {0})
show_checked none = show ssl_read_error
show_checked (some response) =
    if is_empty response then show connection_closed else show (server_response (cstr response))

unfoldable pub show_or : {S : Type 0} → Shown → Option Bytes → M S (Unit {0})
show_or otherwise none = show otherwise
show_or otherwise (some response) =
    if is_empty response then show otherwise else show (server_response (cstr response))

unfoldable pub query_account_details : {S : Type 0} → M S Details
query_account_details = do
  username ← ask is_valid_username invalid_username
  server_address ← ask is_valid_argument invalid_address
  port ← ask is_valid_port invalid_port
  return (record {
    username = none_if_empty username;
    server_address = none_if_empty server_address;
    port = none_if_empty port;
  })

module _ {S : Type 0} (conn : Connection S) where
  unfoldable pub ask_password : Bytes → Bytes → M S (Unit {0})
  ask_password command username = do
    password ← prompt
    response ← exchanged conn (login_request command username password) 1023
    show_unchecked response

  unfoldable pub handle_login_and_register : Bytes → M S (Unit {0})
  handle_login_and_register command = do
    username ← prompt
    if is_valid_username username then ask_password command username else show invalid_characters

  unfoldable pub handle_login : M S (Unit {0})
  handle_login = handle_login_and_register (codes "LOGIN")

  unfoldable pub handle_register : M S (Unit {0})
  handle_register = handle_login_and_register (codes "REGISTER")

  unfoldable pub handle_logout : M S (Unit {0})
  handle_logout = do response ← exchanged conn (codes "LOGOUT") 255; show_checked response

  unfoldable pub handle_delete_account : M S (Unit {0})
  handle_delete_account = do
    username ← prompt
    response ← exchanged conn (delete_request username) 255
    show_checked response

  unfoldable pub handle_add_connection : M S (Unit {0})
  handle_add_connection = do
    details ← query_account_details
    response ← exchanged conn (add_connection_request details) 255
    show_or no_server_response response

  unfoldable pub handle_set_trustline : M S (Unit {0})
  handle_set_trustline = do
    details ← query_account_details
    size ← ask is_number invalid_size
    response ← exchanged conn (set_trustline_request details (none_if_empty size)) 1023
    show_or no_response response
