-- ===== src/Server/Threads/Peers/Keeping.antt =====
-- The thread for another server, call by call: it keeps of the files what new directories and the file
-- of a trustline keep.
use thing.Prelude.{not, Option, none, some, List, [], ◌∷◌, Bytes, length, ltb}
use thing.CString.{cstr, snprintf}
use thing.Commands.{find_command_handler}
use thing.Files.{Tree, access, mkdir}
use thing.Format.{is_valid_username}
use thing.Scan.{sscanf}
use thing.Server.Account.{account_path}
use thing.Server.Connection.{split_command}
use thing.Server.Dispatch.{AsServerHandler, answer_set_trustline, server_as_server_commands}
use thing.Server.Peer.{SubjectName, get_domain_name, peer_path, trustline_path}
use thing.Server.Threads.Directories.{directories-Keeps}
use thing.Server.Threads.Handlers.{make_dirs_calls}
use thing.Server.Threads.Peers.{
  store_trustline_calls, for_domain_calls, accept_trustline_calls, accept_fields_calls,
  answer_server_calls, handle_server_connection_calls,
}
use thing.Server.Threads.Program.{◌>>=◌, Keeps, Keeps-bind, Keeps-either}
use thing.Server.Trust.{or_none}
use thing.Server.Types.{Server, default_user}

-- What a new directory and the file of a trustline keep of the files.
pub record KeepsPeers (srv : Server) (I : Tree → Type 0) : Type 0 where
  pub mkdir : (path : Bytes) (t : Tree) → I t → I (mkdir srv.os path t).1
  pub store :
      (dir size : Bytes)
      → Keeps I
          (store_trustline_calls srv (snprintf 1536 (trustline_path (snprintf 1280 dir))) size)

module _ (srv : Server) (I : Tree → Type 0) (k : KeepsPeers srv I) where
  for_domain-Keeps :
      (user_dir remote size : Bytes) (domain : Option Bytes)
      → Keeps I (for_domain_calls srv user_dir remote size domain)
  unfolding for_domain_calls
  for_domain-Keeps user_dir remote size none = tt
  for_domain-Keeps user_dir remote size (some domain) =
      let peer_dir = snprintf 1280 (peer_path user_dir domain remote) in
      Keeps-bind I (make_dirs_calls srv.os peer_dir) _ (directories-Keeps srv.os I k.mkdir peer_dir)
        (λ made. Keeps-either I made _ _ (k.store (peer_path user_dir domain remote) size) tt)

  accept_fields-Keeps :
      (subject : Option SubjectName) (fields : List Bytes)
      → Keeps I (accept_fields_calls srv subject fields)
  unfolding accept_fields_calls accept_trustline_calls ◌>>=◌
  accept_fields-Keeps subject (remote ∷ local ∷ size ∷ []) =
      let name = or_none local default_user in
      let user_dir = snprintf 768 (account_path srv.datadir name) in
      Keeps-either I (not (is_valid_username name)) _ _ tt (λ t w. (
        w,
        Keeps-either I (not (access srv.os user_dir t)) _ _ tt
            (for_domain-Keeps user_dir remote size (get_domain_name subject)),
      ))
  accept_fields-Keeps subject [] = tt
  accept_fields-Keeps subject (a ∷ []) = tt
  accept_fields-Keeps subject (a ∷ b ∷ []) = tt
  accept_fields-Keeps subject (a ∷ b ∷ c ∷ d ∷ r) = tt

  answer_server-Keeps :
      (h : Option AsServerHandler) (subject : Option SubjectName) (args : Option Bytes)
      → Keeps I (answer_server_calls srv h subject args)
  unfolding answer_server_calls
  answer_server-Keeps none subject args = tt
  answer_server-Keeps (some answer_set_trustline) subject none = tt
  answer_server-Keeps (some answer_set_trustline) subject (some args) =
      Keeps-bind I (accept_fields_calls srv subject (sscanf (255 ∷ 255 ∷ 255 ∷ []) args)) _
        (accept_fields-Keeps subject (sscanf (255 ∷ 255 ∷ 255 ∷ []) args)) (λ r. tt)

  pub server_connection-Keeps :
      (subject : Option SubjectName) (received : Option Bytes)
      → Keeps I (handle_server_connection_calls srv subject received)
  unfolding handle_server_connection_calls
  server_connection-Keeps subject none = tt
  server_connection-Keeps subject (some received) =
      let (command, arguments) = split_command (cstr received) in
      Keeps-either I (ltb (length received) 256) _ _
        (answer_server-Keeps (find_command_handler command server_as_server_commands) subject
          arguments)
        tt
