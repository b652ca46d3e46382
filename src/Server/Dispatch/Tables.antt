-- ===== src/Server/Dispatch/Tables.antt =====
-- Which handler a command reaches.
use thing.Prelude.{◌≡◌, ◌≢◌, refl, Option, none, some, [], ◌∷◌, Bytes, codes, arith}
use thing.Commands.Lookup.{find_unknown}
use thing.Commands.{initialize_commands, find_command_handler}
use thing.CString.Laws.{same_iff}
use thing.CString.{same}
use thing.Files.{Tree}
use thing.Server.Dispatch.{
  ClientHandler, login, register, logout, delete_account, add_connection, set_trustline,
  client_commands, client_command_handlers, server_as_server_commands, run_client, answer_client,
  client_dispatch_command, answer_server, server_as_server_dispatch_command,
}
use thing.Server.Peer.{SubjectName, server_as_server_handle_set_trustline}
use thing.Server.Types.{Server, State, replied, invalid_command}

-- The command of each handler in the protocol between client and server.
abbrev pub name_of : ClientHandler → Bytes
name_of login = codes "LOGIN"
name_of register = codes "REGISTER"
name_of logout = codes "LOGOUT"
name_of delete_account = codes "DELETE_ACCOUNT"
name_of add_connection = codes "ADD_CONNECTION"
name_of set_trustline = codes "SET_TRUSTLINE"

find_client : (h : ClientHandler) → find_command_handler (name_of h) client_commands ≡ some h
unfolding find_command_handler initialize_commands same
find_client login = refl
find_client register = refl
find_client logout = refl
find_client delete_account = refl
find_client add_connection = refl
find_client set_trustline = refl

find_server :
    (command : Bytes)
    → command ≢ codes "SET_TRUSTLINE"
    → find_command_handler command server_as_server_commands ≡ none
unfolding find_command_handler initialize_commands
find_server command ne = ground (arith, same_iff command (codes "SET_TRUSTLINE"))

module _ (srv : Server) where
  -- The name of each of the six commands of a client is dispatched to the handler of that command.
  pub client_dispatch_known :
      (h : ClientHandler) (args : Option Bytes) (st : State)
      → client_dispatch_command srv (name_of h) args st ≡ run_client srv h args st
  unfolding client_dispatch_command answer_client
  client_dispatch_known h args st = rw (find_client h)

  -- A command that is none of the six names of a client is answered by INVALID_COMMAND, and changes
  -- nothing.
  pub client_dispatch_unknown :
      (command : Bytes) (args : Option Bytes) (st : State)
      → ((h : ClientHandler) → name_of h ≢ command)
      → client_dispatch_command srv command args st ≡ (replied invalid_command, st)
  unfolding client_dispatch_command answer_client
  client_dispatch_unknown command args st u = rw (
      find_unknown command
        (name_of login
          ∷ name_of register
          ∷ name_of logout
          ∷ name_of delete_account
          ∷ name_of add_connection
          ∷ name_of set_trustline
          ∷ [])
        client_command_handlers
        (
          u login,
          (u register, (u logout, (u delete_account, (u add_connection, (u set_trustline, tt))))),
        ))

  -- SET_TRUSTLINE is run by its handler.
  pub server_dispatch_trustline :
      (subject : Option SubjectName) (args : Option Bytes) (t : Tree)
      → server_as_server_dispatch_command srv subject (codes "SET_TRUSTLINE") args t
        ≡ server_as_server_handle_set_trustline srv subject args t
  unfolding server_as_server_dispatch_command answer_server find_command_handler initialize_commands
      same
  server_dispatch_trustline subject args t = refl

  -- To every other command of another server, ACCOUNT_EXISTS included, this server answers
  -- INVALID_COMMAND, and changes nothing.
  pub server_dispatch_other :
      (subject : Option SubjectName) (command : Bytes) (args : Option Bytes) (t : Tree)
      → command ≢ codes "SET_TRUSTLINE"
      → server_as_server_dispatch_command srv subject command args t ≡ (replied invalid_command, t)
  unfolding server_as_server_dispatch_command answer_server
  server_dispatch_other subject command args t ne = rw (find_server command ne)
