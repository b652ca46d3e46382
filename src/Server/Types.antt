-- ===== src/Server/Types.antt =====
-- What the parts of the server share: the session, the settings, the replies, and what stands
-- outside the program.
use thing.Prelude.{ℕ, Bool, false, Option, [], Bytes, codes}
use thing.Files.{Tree, Os}

-- src/server/session_defs.h
pub record Session : Type 0 where
  pub username : Bytes
  pub authenticated : Bool

-- `Session session = {0};`
abbrev pub no_session : Session
no_session = record { username = []; authenticated = false }

-- A connection to another server, named by what it was opened with.
pub record Link : Type 0 where
  pub host : Bytes
  pub port : ℕ

-- The other servers. `connects` says whether `establish_connection` succeeds. `exchange` takes a
-- request that was written to a link, and gives what `SSL_read` then reads (`none` for an error);
-- meanwhile the other threads of this server may have changed its files.
pub record Network : Type 0 where
  pub connects : Link → Bool
  pub exchange : Link → Bytes → Tree → Option Bytes × Tree

-- The settings of a running server: `datadir` of database.c, and its surroundings.
pub record Server : Type 0 where
  pub datadir : Bytes
  pub os : Os
  pub net : Network

-- What a handler of a client's command reads and changes.
pub record State : Type 0 where
  pub session : Session
  pub tree : Tree

-- src/server/server_config.h
abbrev pub server_address : Bytes
server_address = codes "jipple.net"

abbrev pub server_default_port : Bytes
server_default_port = codes "2012"

abbrev pub default_user : Bytes
default_user = codes "default"

-- The texts that the handlers return. `forwarded` is a text that another server sent.
pub data Reply : Type 0 where
  invalid_arguments invalid_username username_exists directory_creation_failed : Reply
  password_file_creation_failed password_write_failed register_success : Reply
  auth_required failed_to_delete_user user_deleted_successfully : Reply
  username_not_found password_file_not_found password_read_failed password_incorrect : Reply
  login_success logout_success already_connected connection_added : Reply
  invalid_port connection_failed cannot_add_self account_not_found : Reply
  failed_username_invalid failed_to_access_user_directory failed_domain_check : Reply
  failed_to_open_file trustline_set_successfully invalid_command : Reply
  forwarded : Bytes → Reply

unfoldable pub text : Reply → Bytes
text invalid_arguments = codes "INVALID_ARGUMENTS"
text invalid_username = codes "INVALID_USERNAME"
text username_exists = codes "USERNAME_EXISTS"
text directory_creation_failed = codes "DIRECTORY_CREATION_FAILED"
text password_file_creation_failed = codes "PASSWORD_FILE_CREATION_FAILED"
text password_write_failed = codes "PASSWORD_WRITE_FAILED"
text register_success = codes "REGISTER_SUCCESS"
text auth_required = codes "AUTH_REQUIRED"
text failed_to_delete_user = codes "FAILED_TO_DELETE_USER"
text user_deleted_successfully = codes "USER_DELETED_SUCCESSFULLY"
text username_not_found = codes "USERNAME_NOT_FOUND"
text password_file_not_found = codes "PASSWORD_FILE_NOT_FOUND"
text password_read_failed = codes "PASSWORD_READ_FAILED"
text password_incorrect = codes "PASSWORD_INCORRECT"
text login_success = codes "LOGIN_SUCCESS"
text logout_success = codes "LOGOUT_SUCCESS"
text already_connected = codes "ALREADY_CONNECTED"
text connection_added = codes "CONNECTION_ADDED"
text invalid_port = codes "INVALID_PORT"
text connection_failed = codes "CONNECTION_FAILED"
text cannot_add_self = codes "CANNOT_ADD_SELF"
text account_not_found = codes "ACCOUNT_NOT_FOUND"
text failed_username_invalid = codes "FAILED_USERNAME_INVALID"
text failed_to_access_user_directory = codes "FAILED_TO_ACCESS_USER_DIRECTORY"
text failed_domain_check = codes "FAILED_DOMAIN_CHECK"
text failed_to_open_file = codes "FAILED_TO_OPEN_FILE"
text trustline_set_successfully = codes "TRUSTLINE_SET_SUCCESSFULLY"
text invalid_command = codes "INVALID_COMMAND"
text (forwarded s) = s

-- A handler returns a text, or the process does what C leaves undefined: it reads through a null
-- pointer, or writes past a buffer.
pub data Outcome : Type 0 where
  replied : Reply → Outcome
  faulted : Outcome
