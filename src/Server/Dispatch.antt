-- ===== src/Server/Dispatch.antt =====
-- src/server/commands_util.c: the tables of handlers and the dispatchers that answer.
pub mod Tables
use thing.Prelude.{Option, none, some, List, [], ◌∷◌, Bytes, codes}
use thing.Commands.{Command, initialize_commands, find_command_handler}
use thing.Files.{Tree}
use thing.Server.Account.{
  client_handle_register, client_handle_login, client_handle_logout, client_handle_delete_account,
}
use thing.Server.Trust.{client_handle_add_connection, client_handle_set_trustline}
use thing.Server.Peer.{SubjectName, server_as_server_handle_set_trustline}
use thing.Server.Remote.{server_command_names}
use thing.Server.Types.{Server, State, Outcome, replied, invalid_command}

-- CLIENT_COMMAND_NAMES of src/common/command_defs.h
abbrev pub client_command_names : List (Option Bytes)
client_command_names =
    some (codes "LOGIN")
    ∷ some (codes "REGISTER")
    ∷ some (codes "LOGOUT")
    ∷ some (codes "DELETE_ACCOUNT")
    ∷ some (codes "ADD_CONNECTION")
    ∷ some (codes "SET_TRUSTLINE")
    ∷ none
    ∷ []

pub data ClientHandler : Type 0 where
  login register logout delete_account add_connection set_trustline : ClientHandler

abbrev pub client_command_handlers : List (Option ClientHandler)
client_command_handlers =
    some login
    ∷ some register
    ∷ some logout
    ∷ some delete_account
    ∷ some add_connection
    ∷ some set_trustline
    ∷ none
    ∷ []

pub data AsServerHandler : Type 0 where
  answer_set_trustline : AsServerHandler

-- "Handler not implemented yet" at the first command, ACCOUNT_EXISTS.
abbrev pub server_as_server_command_handlers : List (Option AsServerHandler)
server_as_server_command_handlers = none ∷ some answer_set_trustline ∷ none ∷ []

abbrev pub client_commands : List (Command ClientHandler)
client_commands = initialize_commands client_command_names client_command_handlers

abbrev pub server_as_server_commands : List (Command AsServerHandler)
server_as_server_commands =
    initialize_commands server_command_names server_as_server_command_handlers

module _ (srv : Server) where
  unfoldable pub run_client : ClientHandler → Option Bytes → State → Outcome × State
  run_client login = client_handle_login srv
  run_client register = client_handle_register srv
  run_client logout = client_handle_logout srv
  run_client delete_account = client_handle_delete_account srv
  run_client add_connection = client_handle_add_connection srv
  run_client set_trustline = client_handle_set_trustline srv

  unfoldable pub answer_client : Option ClientHandler → Option Bytes → State → Outcome × State
  answer_client none args st = (replied invalid_command, st)
  answer_client (some h) args st = run_client h args st

  -- The text that is written to the client, and the new state.
  unfoldable pub client_dispatch_command : Bytes → Option Bytes → State → Outcome × State
  client_dispatch_command command args st =
      answer_client (find_command_handler command client_commands) args st

  unfoldable pub answer_server :
      Option AsServerHandler → Option SubjectName → Option Bytes → Tree → Outcome × Tree
  answer_server none subject args t = (replied invalid_command, t)
  answer_server (some answer_set_trustline) subject args t =
      server_as_server_handle_set_trustline srv subject args t

  unfoldable pub server_as_server_dispatch_command :
      Option SubjectName → Bytes → Option Bytes → Tree → Outcome × Tree
  server_as_server_dispatch_command subject command args t =
      answer_server (find_command_handler command server_as_server_commands) subject args t
