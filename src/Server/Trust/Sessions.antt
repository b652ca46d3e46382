-- ===== src/Server/Trust/Sessions.antt =====
-- ADD_CONNECTION and SET_TRUSTLINE leave the session alone, and want one that is logged in.
use thing.Prelude.{◌≡◌, refl, Option, none, some, List, [], ◌∷◌, Bytes, codes, arith}
use thing.Files.{Tree}
use thing.Server.Remote.{server_as_client_dispatch_command, server_as_client_connection_handler}
use thing.CString.{snprintf}
use thing.Format.{atoi}
use thing.Scan.{sscanf, field}
use thing.Server.Types.{Link, server_default_port, default_user, Session, Server, State}
use thing.Server.Trust.{
  finish_connection, connect_and_ask, add_connection, client_handle_add_connection, returned,
  or_none, or_default, local_address, trustline_args, request_trustline, set_trustline_fields,
  client_handle_set_trustline,
}

module _ (srv : Server) where
  session-finish_connection :
      (remote address port_str : Bytes) (r : Option Bytes × Tree) (s : Session)
      → (finish_connection srv remote address port_str r s).1.session ≡ s
  unfolding finish_connection
  session-finish_connection remote address port_str (none, t) s = refl
  session-finish_connection remote address port_str (some response, t) s = ground arith

  session-add_connection_parsed :
      (remote address port_str : Bytes) (st : State)
      → (add_connection srv remote address port_str st).1.session ≡ st.session
  unfolding add_connection connect_and_ask
  session-add_connection_parsed remote address port_str st =
      let ssl : Link = record { host = address; port = atoi port_str } in
      ground (
        arith,
        session-finish_connection remote address port_str
            (server_as_client_dispatch_command srv.net ssl (codes "ACCOUNT_EXISTS") remote st.tree)
            st.session,
      )

  pub session-add_connection :
      (args : Option Bytes) (st : State)
      → (client_handle_add_connection srv args st).1.session ≡ st.session
  session-add_connection none st = unfold client_handle_add_connection in ground arith
  session-add_connection (some a) st =
      unfold client_handle_add_connection in
      let fields = sscanf (255 ∷ 255 ∷ 5 ∷ []) a in
      ground (
        arith,
        session-add_connection_parsed (or_default (field [] fields 0) default_user)
            (local_address (field [] fields 1)) (or_default (field [] fields 2) server_default_port)
            st,
      )

  session-returned : (r : Option Bytes × Tree) (s : Session) → (returned r s).1.session ≡ s
  unfolding returned
  session-returned (none, t) s = refl
  session-returned (some response, t) s = refl

  session-request_trustline :
      (remote address port_str size : Bytes) (st : State)
      → (request_trustline srv remote address port_str size st).1.session ≡ st.session
  unfolding request_trustline
  session-request_trustline remote address port_str size st =
      let ssl : Link = record { host = address; port = atoi port_str } in
      let answer =
        server_as_client_connection_handler srv.net ssl (codes "SET_TRUSTLINE")
          (snprintf 1024 (trustline_args st.session.username remote size)) st.tree in
      ground (arith, session-returned answer st.session)

  session-set_trustline_fields :
      (fields : List Bytes) (st : State)
      → (set_trustline_fields srv fields st).1.session ≡ st.session
  unfolding set_trustline_fields
  session-set_trustline_fields (r ∷ a ∷ p ∷ size ∷ []) st =
      session-request_trustline r (or_none a (codes "localhost")) (or_none p server_default_port)
        size st
  session-set_trustline_fields _ st = refl

  pub session-set_trustline :
      (args : Option Bytes) (st : State)
      → (client_handle_set_trustline srv args st).1.session ≡ st.session
  session-set_trustline none st = unfold client_handle_set_trustline in ground arith
  session-set_trustline (some a) st =
      let fields = sscanf (255 ∷ 255 ∷ 5 ∷ 255 ∷ []) a in
      unfold client_handle_set_trustline in ground (arith, session-set_trustline_fields fields st)
