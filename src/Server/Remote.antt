-- ===== src/Server/Remote.antt =====
-- src/server/server_services/server_as_client/ and `server_as_client_dispatch_command` of
-- src/server/commands_util.c: the requests to other servers.
pub mod Answers
use thing.Prelude.{
  ℕ, Bool, Option, none, some, List, [], ◌∷◌, ◌++◌, Bytes, codes, take, if◌then◌else◌,
}
use thing.CString.{cstr, snprintf}
use thing.Commands.{Command, initialize_commands, find_command_handler}
use thing.Files.{Tree}
use thing.Server.Types.{Link, Network}

-- SERVER_COMMAND_NAMES
abbrev pub server_command_names : List (Option Bytes)
server_command_names = some (codes "ACCOUNT_EXISTS") ∷ some (codes "SET_TRUSTLINE") ∷ none ∷ []

pub data AsClientHandler : Type 0 where
  ask_account_exists ask_set_trustline : AsClientHandler

abbrev pub server_as_client_command_handlers : List (Option AsClientHandler)
server_as_client_command_handlers = some ask_account_exists ∷ some ask_set_trustline ∷ none ∷ []

abbrev pub server_as_client_commands : List (Command AsClientHandler)
server_as_client_commands =
    initialize_commands server_command_names server_as_client_command_handlers

-- The response buffer behind `SSL_read(ssl, response, max_length - 1)`, as a C string; `none` if the
-- read failed, which leaves the buffer uninitialised.
unfoldable pub receive_response : ℕ → Option Bytes → Option Bytes
receive_response max_length none = none
receive_response max_length (some bytes) = some (cstr (snprintf max_length bytes))

module _ (net : Network) (ssl : Link) where
  -- `send_query`, `receive_response` and `strdup` of the buffer of 1024 bytes. `none` is the fault of
  -- `strdup` at a buffer that nothing was written to.
  unfoldable pub query_server : Bytes → Tree → Option Bytes × Tree
  query_server query t =
      let (response, u) = net.exchange ssl query t in (receive_response 1024 response, u)

  unfoldable pub server_as_client_handle_account_exists : Bytes → Tree → Option Bytes × Tree
  server_as_client_handle_account_exists args =
      query_server (snprintf 256 (codes "ACCOUNT_EXISTS " ++ args))

  unfoldable pub server_as_client_handle_set_trustline : Bytes → Tree → Option Bytes × Tree
  server_as_client_handle_set_trustline args =
      query_server (snprintf 768 (codes "SET_TRUSTLINE " ++ args))

  unfoldable pub run_as_client : AsClientHandler → Bytes → Tree → Option Bytes × Tree
  run_as_client ask_account_exists = server_as_client_handle_account_exists
  run_as_client ask_set_trustline = server_as_client_handle_set_trustline

  unfoldable pub answered : Option AsClientHandler → Bytes → Tree → Option Bytes × Tree
  answered none args t = (none, t)
  answered (some h) args t = run_as_client h args t

  -- `none` is the result NULL, or the fault of the handler. Every caller reads the text of the result,
  -- so that it faults at either.
  unfoldable pub server_as_client_dispatch_command : Bytes → Bytes → Tree → Option Bytes × Tree
  server_as_client_dispatch_command command args =
      answered (find_command_handler command server_as_client_commands) args

unfoldable pub server_as_client_connection_handler :
    Network → Link → Bytes → Bytes → Tree → Option Bytes × Tree
server_as_client_connection_handler net ssl command args t =
    if net.connects ssl
    then server_as_client_dispatch_command net ssl command args t
    else (some (codes "CONNECTION_FAILED"), t)
