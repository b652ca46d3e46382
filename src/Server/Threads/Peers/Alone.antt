-- ===== src/Server/Threads/Peers/Alone.antt =====
-- The thread for another server, uninterrupted.
use thing.Prelude.{
  ◌≡◌, refl, ◌∙◌, Bool, true, false, not, Option, none, some, List, [], ◌∷◌, Bytes, length, ltb,
  if◌then◌else◌,
}
use thing.CString.{cstr, snprintf}
use thing.Commands.{find_command_handler}
use thing.Database.{make_dirs}
use thing.Files.{Tree, access}
use thing.Format.{is_valid_username}
use thing.Scan.{sscanf}
use thing.Server.Account.{account_path}
use thing.Server.Connection.{split_command, handle_server_connection}
use thing.Server.Dispatch.{
  AsServerHandler, answer_set_trustline, answer_server, server_as_server_commands,
  server_as_server_dispatch_command,
}
use thing.Server.Peer.{
  SubjectName, get_domain_name, peer_path, trustline_path, clears, store_trustline, at_peer_dir,
  for_domain, accept_trustline, accept_fields, server_as_server_handle_set_trustline,
}
use thing.Server.Threads.Alone.{run-make_dirs}
use thing.Server.Threads.Handlers.{make_dirs_calls}
use thing.Server.Threads.Peers.{
  store_trustline_calls, for_domain_calls, accept_trustline_calls, accept_fields_calls,
  answer_server_calls, handle_server_connection_calls,
}
use thing.Server.Threads.Program.{done, ◌>>=◌, run, run-return, run-bind, run-if}
use thing.Server.Trust.{or_none}
use thing.Server.Types.{Server, faulted, default_user, directory_creation_failed}

module _ (srv : Server) where
  run-store_trustline :
      (filepath size : Bytes) (t : Tree)
      → run (store_trustline_calls srv filepath size) t ≡ store_trustline srv filepath size t
  unfolding store_trustline_calls store_trustline run ◌>>=◌
  run-store_trustline filepath size t = run-if (clears size) _ _ t refl refl

  run-at_peer_dir :
      (peer_dir size : Bytes) (r : Bool × Tree)
      → run
          (if r.0
            then store_trustline_calls srv (snprintf 1536 (trustline_path peer_dir)) size
            else done directory_creation_failed)
          r.1
        ≡ at_peer_dir srv peer_dir size r
  unfolding at_peer_dir
  run-at_peer_dir peer_dir size (true, t) =
      run-store_trustline (snprintf 1536 (trustline_path peer_dir)) size t
  run-at_peer_dir peer_dir size (false, t) = run-return directory_creation_failed t

  run-for_domain :
      (user_dir remote size : Bytes) (domain : Option Bytes) (t : Tree)
      → run (for_domain_calls srv user_dir remote size domain) t
        ≡ for_domain srv user_dir remote size domain t
  unfolding for_domain_calls for_domain
  run-for_domain user_dir remote size none t = unfold run in refl
  run-for_domain user_dir remote size (some domain) t =
      let peer_dir = snprintf 1280 (peer_path user_dir domain remote) in
      run-bind (make_dirs_calls srv.os peer_dir) _ t
      ∙ rw (run-make_dirs srv.os peer_dir t)
          (run-at_peer_dir peer_dir size (make_dirs srv.os peer_dir t))

  run-accept_trustline :
      (subject : Option SubjectName) (remote local size : Bytes) (t : Tree)
      → run (accept_trustline_calls srv subject remote local size) t
        ≡ accept_trustline srv subject remote local size t
  unfolding accept_trustline_calls accept_trustline run ◌>>=◌
  run-accept_trustline subject remote local size t =
      let user_dir = snprintf 768 (account_path srv.datadir local) in
      run-if (not (is_valid_username local)) _ _ t refl (
        run-if (not (access srv.os user_dir t)) _ _ t refl
          (run-for_domain user_dir remote size (get_domain_name subject) t))

  run-accept_fields :
      (subject : Option SubjectName) (fields : List Bytes) (t : Tree)
      → run (accept_fields_calls srv subject fields) t ≡ accept_fields srv subject fields t
  unfolding accept_fields_calls accept_fields
  run-accept_fields subject (remote ∷ local ∷ size ∷ []) t =
      run-accept_trustline subject remote (or_none local default_user) size t
  run-accept_fields subject [] t = unfold run in refl
  run-accept_fields subject (a ∷ []) t = unfold run in refl
  run-accept_fields subject (a ∷ b ∷ []) t = unfold run in refl
  run-accept_fields subject (a ∷ b ∷ c ∷ d ∷ r) t = unfold run in refl

  run-answer_server :
      (h : Option AsServerHandler) (subject : Option SubjectName) (args : Option Bytes) (t : Tree)
      → run (answer_server_calls srv h subject args) t ≡ answer_server srv h subject args t
  unfolding answer_server_calls answer_server server_as_server_handle_set_trustline
  run-answer_server none subject args t = unfold run in refl
  run-answer_server (some answer_set_trustline) subject none t = unfold run in refl
  run-answer_server (some answer_set_trustline) subject (some args) t =
      run-bind (accept_fields_calls srv subject (sscanf (255 ∷ 255 ∷ 255 ∷ []) args)) _ t
      ∙ rw (run-accept_fields subject (sscanf (255 ∷ 255 ∷ 255 ∷ []) args) t) (unfold run in refl)

  -- The thread for another server, if no other thread comes between its calls, gives the answer and
  -- the files of `handle_server_connection`.
  run-handle_server_connection :
      (subject : Option SubjectName) (received : Option Bytes) (t : Tree)
      → run (handle_server_connection_calls srv subject received) t
        ≡ handle_server_connection srv subject received t
  unfolding handle_server_connection_calls handle_server_connection
      server_as_server_dispatch_command
  run-handle_server_connection subject none t = unfold run in refl
  run-handle_server_connection subject (some received) t =
      let (command, arguments) = split_command (cstr received) in
      run-if (ltb (length received) 256) _ _ t
        (run-answer_server (find_command_handler command server_as_server_commands) subject
          arguments t)
        (run-return faulted t)
