-- ===== src/Server/Threads/Refines.antt =====
-- ADD_CONNECTION and SET_TRUSTLINE, uninterrupted, and every request of a client.
use thing.Prelude.{
  ◌≡◌, refl, ◌∙◌, Bool, true, false, not, ◌&&◌, Option, none, some, List, [], ◌∷◌, Bytes, codes,
  take, if◌then◌else◌,
}
use thing.CString.{cstr, same, snprintf}
use thing.Commands.{find_command_handler}
use thing.Database.{make_dirs}
use thing.Files.{Tree, access}
use thing.Format.{is_valid_username, is_valid_port, is_positive, atoi}
use thing.Scan.{sscanf, field}
use thing.Server.Account.{client_handle_logout}
use thing.Server.Connection.{split_command, handle_request}
use thing.Server.Dispatch
use thing.Server.Dispatch.{
  ClientHandler, client_commands, run_client, answer_client, client_dispatch_command,
  AsServerHandler, answer_set_trustline, answer_server, server_as_server_commands,
  server_as_server_dispatch_command,
}
use thing.Server.Remote.{server_as_client_dispatch_command, server_as_client_connection_handler}
use thing.Server.Threads.Accounts.{apart, if-apart, run-register, run-login, run-delete_account}
use thing.Server.Threads.Alone.{run-make_dirs}
use thing.Server.Threads.Handlers.{
  make_dirs_calls, logout_calls, returned_response, add_account_calls, finish_connection_calls,
  connect_and_ask_calls, add_connection_calls, request_trustline_calls, trustline_fields_calls,
  set_trustline_calls, run_client_calls, answer_client_calls, handle_request_calls,
}
use thing.Server.Threads.Program.{◌>>=◌, run, run-return, run-bind, run-if}
use thing.Server.Trust.{
  connection_path, or_default, or_none, trustline_args, local_address, made_connection, returned,
  add_account, finish_connection, connect_and_ask, add_connection, client_handle_add_connection,
  request_trustline, set_trustline_fields, client_handle_set_trustline,
}
use thing.Server.Types.{
  Session, Server, State, Link, server_default_port, default_user, connection_added,
  directory_creation_failed,
}

module _ (srv : Server) where
  made_connection_lem :
      (r : Bool × Tree)
      → (if r.0 then connection_added else directory_creation_failed, r.1) ≡ made_connection r
  unfolding made_connection
  made_connection_lem (true, t) = refl
  made_connection_lem (false, t) = refl

  run-add_account :
      (username address port_str : Bytes) (s : Session) (t : Tree)
      → run (add_account_calls srv username address port_str s) t
        ≡ add_account srv username address port_str s t
  unfolding add_account_calls add_account run ◌>>=◌
  run-add_account username address port_str s t =
      let user_dir =
        snprintf 1280 (connection_path srv.datadir s.username address port_str username) in
      run-if (access srv.os user_dir t) _ _ t refl (
        run-bind (make_dirs_calls srv.os user_dir) _ t
        ∙ rw (run-make_dirs srv.os user_dir t) (made_connection_lem (make_dirs srv.os user_dir t)))

  run-finish_connection :
      (remote address port_str : Bytes) (r : Option Bytes × Tree) (s : Session)
      → run (finish_connection_calls srv remote address port_str r.0 s) r.1
        ≡ apart (finish_connection srv remote address port_str r s)
  unfolding finish_connection_calls finish_connection
  run-finish_connection remote address port_str (none, t) s = unfold run in refl
  run-finish_connection remote address port_str (some response, t) s =
      run-if (not (same response (codes "ACCOUNT_EXISTS"))) _ _ t (run-return _ t) (
        run-if (same address (codes "localhost") && same remote s.username) _ _ t (run-return _ t) (
          run-bind (add_account_calls srv remote address port_str s) _ t
          ∙ rw (run-add_account remote address port_str s t) (unfold run in refl))
        ∙ if-apart (same address (codes "localhost") && same remote s.username) _ _)
      ∙ if-apart (not (same response (codes "ACCOUNT_EXISTS"))) _ _

  run-connect_and_ask :
      (remote address port_str : Bytes) (st : State)
      → run (connect_and_ask_calls srv remote address port_str st.session) st.tree
        ≡ apart (connect_and_ask srv remote address port_str st)
  unfolding connect_and_ask_calls connect_and_ask run ◌>>=◌
  run-connect_and_ask remote address port_str st =
      let ssl : Link = record { host = address; port = atoi port_str } in
      run-if (not (srv.net.connects ssl)) _ _ st.tree refl (
        run-finish_connection remote address port_str
          (server_as_client_dispatch_command srv.net ssl (codes "ACCOUNT_EXISTS") remote st.tree)
          st.session)
      ∙ if-apart (not (srv.net.connects ssl)) _ _

  run-add_connection :
      (args : Option Bytes) (st : State)
      → run (add_connection_calls srv args st.session) st.tree
        ≡ apart (client_handle_add_connection srv args st)
  unfolding add_connection_calls client_handle_add_connection add_connection
  run-add_connection none st =
      run-if (not st.session.authenticated) _ _ st.tree (run-return _ st.tree)
        (run-return _ st.tree)
      ∙ if-apart (not st.session.authenticated) _ _
  run-add_connection (some a) st =
      let fields = sscanf (255 ∷ 255 ∷ 5 ∷ []) a in
      let remote = or_default (field [] fields 0) default_user in
      let port_str = or_default (field [] fields 2) server_default_port in
      run-if (not st.session.authenticated) _ _ st.tree (run-return _ st.tree) (
        run-if (not (is_valid_username remote)) _ _ st.tree (run-return _ st.tree) (
          run-if (not (is_positive (atoi port_str))) _ _ st.tree (run-return _ st.tree)
            (run-connect_and_ask remote (local_address (field [] fields 1)) port_str st)
          ∙ if-apart (not (is_positive (atoi port_str))) _ _)
        ∙ if-apart (not (is_valid_username remote)) _ _)
      ∙ if-apart (not st.session.authenticated) _ _

  returned_lem :
      (r : Option Bytes × Tree) (s : Session)
      → (returned_response r.0 s, r.1) ≡ apart (returned r s)
  unfolding returned_response returned
  returned_lem (none, t) s = refl
  returned_lem (some response, t) s = refl

  run-request_trustline :
      (remote address port_str size : Bytes) (st : State)
      → run (request_trustline_calls srv remote address port_str size st.session) st.tree
        ≡ apart (request_trustline srv remote address port_str size st)
  unfolding request_trustline_calls request_trustline run ◌>>=◌
  run-request_trustline remote address port_str size st =
      run-if (not (is_valid_username remote)) _ _ st.tree refl (
        run-if (not (is_valid_port port_str)) _ _ st.tree refl (
          returned_lem
            (server_as_client_connection_handler srv.net
              (record { host = address; port = atoi port_str }) (codes "SET_TRUSTLINE")
              (snprintf 1024 (trustline_args st.session.username remote size)) st.tree)
            st.session)
        ∙ if-apart (not (is_valid_port port_str)) _ _)
      ∙ if-apart (not (is_valid_username remote)) _ _

  run-trustline_fields :
      (fields : List Bytes) (st : State)
      → run (trustline_fields_calls srv fields st.session) st.tree
        ≡ apart (set_trustline_fields srv fields st)
  unfolding trustline_fields_calls set_trustline_fields
  run-trustline_fields (remote ∷ address ∷ port_str ∷ size ∷ []) st =
      run-request_trustline remote (or_none address (codes "localhost"))
        (or_none port_str server_default_port) size st
  run-trustline_fields [] st = unfold run in refl
  run-trustline_fields (a ∷ []) st = unfold run in refl
  run-trustline_fields (a ∷ b ∷ []) st = unfold run in refl
  run-trustline_fields (a ∷ b ∷ c ∷ []) st = unfold run in refl
  run-trustline_fields (a ∷ b ∷ c ∷ d ∷ e ∷ r) st = unfold run in refl

  run-set_trustline :
      (args : Option Bytes) (st : State)
      → run (set_trustline_calls srv args st.session) st.tree
        ≡ apart (client_handle_set_trustline srv args st)
  unfolding set_trustline_calls client_handle_set_trustline
  run-set_trustline none st =
      run-if (not st.session.authenticated) _ _ st.tree (run-return _ st.tree)
        (run-return _ st.tree)
      ∙ if-apart (not st.session.authenticated) _ _
  run-set_trustline (some a) st =
      run-if (not st.session.authenticated) _ _ st.tree (run-return _ st.tree)
        (run-trustline_fields (sscanf (255 ∷ 255 ∷ 5 ∷ 255 ∷ []) a) st)
      ∙ if-apart (not st.session.authenticated) _ _

  run-client :
      (h : ClientHandler) (args : Option Bytes) (st : State)
      → run (run_client_calls srv h args st.session) st.tree ≡ apart (run_client srv h args st)
  unfolding run_client_calls run_client
  run-client Dispatch.login args st = run-login srv args st
  run-client Dispatch.register args st = run-register srv args st
  run-client Dispatch.logout args st = unfold logout_calls client_handle_logout run in refl
  run-client Dispatch.delete_account args st = run-delete_account srv args st
  run-client Dispatch.add_connection args st = run-add_connection args st
  run-client Dispatch.set_trustline args st = run-set_trustline args st

  run-answer_client :
      (h : Option ClientHandler) (args : Option Bytes) (st : State)
      → run (answer_client_calls srv h args st.session) st.tree
        ≡ apart (answer_client srv h args st)
  unfolding answer_client_calls answer_client
  run-answer_client none args st = unfold run in refl
  run-answer_client (some h) args st = run-client h args st

  -- A request of a client whose calls no other thread comes between gives the answer, the session
  -- and the files of `handle_request`.
  pub run-handle_request :
      (received : Bytes) (st : State)
      → run (handle_request_calls srv received st.session) st.tree ≡ (
        ((handle_request srv received st).0, (handle_request srv received st).1.session),
        (handle_request srv received st).1.tree,
      )
  unfolding handle_request_calls handle_request client_dispatch_command
  run-handle_request received st =
      let (command, arguments) = split_command (cstr (take 255 received)) in
      run-answer_client (find_command_handler command client_commands) arguments st
