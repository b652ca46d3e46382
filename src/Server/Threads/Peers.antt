-- ===== src/Server/Threads/Peers.antt =====
-- The thread for another server, of Server/Peer and Server/Connection, with each call of the system
-- apart.
pub mod Alone
pub mod Keeping
pub mod Trustline
use thing.Prelude.{Bool, not, Option, none, some, List, [], ◌∷◌, Bytes, length, ltb, if◌then◌else◌}
use thing.CString.{cstr, snprintf}
use thing.Commands.{find_command_handler}
use thing.Files.{access, fopen_write, remove}
use thing.Format.{is_valid_username}
use thing.Scan.{sscanf}
use thing.Server.Account.{account_path}
use thing.Server.Connection.{split_command}
use thing.Server.Dispatch.{AsServerHandler, answer_set_trustline, server_as_server_commands}
use thing.Server.Peer.{SubjectName, get_domain_name, peer_path, trustline_path, clears, write_size}
use thing.Server.Threads.Handlers.{make_dirs_calls}
use thing.Server.Threads.Program.{Program, ◌>>=◌, return, query, change, atomic}
use thing.Server.Trust.{or_none}
use thing.Server.Types.{
  Server, Reply, Outcome, replied, faulted, invalid_arguments, invalid_command,
  directory_creation_failed, default_user, failed_username_invalid, failed_to_access_user_directory,
  failed_domain_check, trustline_set_successfully,
}

module _ (srv : Server) where
  unfoldable pub store_trustline_calls : Bytes → Bytes → Program Reply
  store_trustline_calls filepath size =
      if clears size
      then (do _ ← change (remove srv.os filepath); return trustline_set_successfully)
      else atomic (λ t. write_size srv filepath size (fopen_write srv.os filepath t))

  unfoldable pub for_domain_calls : Bytes → Bytes → Bytes → Option Bytes → Program Reply
  for_domain_calls user_dir remote size none = return failed_domain_check
  for_domain_calls user_dir remote size (some domain) = do
    let peer_dir = snprintf 1280 (peer_path user_dir domain remote)
    made ← make_dirs_calls srv.os peer_dir
    if made
        then store_trustline_calls (snprintf 1536 (trustline_path peer_dir)) size
        else return directory_creation_failed

  unfoldable pub accept_trustline_calls : Option SubjectName → Bytes → Bytes → Bytes → Program Reply
  accept_trustline_calls subject remote local size =
      let user_dir = snprintf 768 (account_path srv.datadir local) in
      if not (is_valid_username local) then return failed_username_invalid else do
        there ← query (access srv.os user_dir)
        if not there
            then return failed_to_access_user_directory
            else for_domain_calls user_dir remote size (get_domain_name subject)

  unfoldable pub accept_fields_calls : Option SubjectName → List Bytes → Program Reply
  accept_fields_calls subject (remote ∷ local ∷ size ∷ []) =
      accept_trustline_calls subject remote (or_none local default_user) size
  accept_fields_calls subject _ = return invalid_arguments

  unfoldable pub answer_server_calls :
      Option AsServerHandler → Option SubjectName → Option Bytes → Program Outcome
  answer_server_calls none subject args = return (replied invalid_command)
  answer_server_calls (some answer_set_trustline) subject none = return faulted
  answer_server_calls (some answer_set_trustline) subject (some args) = do
    reply ← accept_fields_calls subject (sscanf (255 ∷ 255 ∷ 255 ∷ []) args)
    return (replied reply)

  unfoldable pub handle_server_connection_calls :
      Option SubjectName → Option Bytes → Program Outcome
  handle_server_connection_calls subject none = return faulted
  handle_server_connection_calls subject (some received) =
      let (command, arguments) = split_command (cstr received) in
      if ltb (length received) 256
      then answer_server_calls (find_command_handler command server_as_server_commands) subject
          arguments
      else return faulted
