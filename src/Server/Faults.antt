-- ===== src/Server/Faults.antt =====
-- When a client's command makes the process do what C leaves undefined.
use thing.Prelude.{
  ℕ, ◌≡◌, ◌≢◌, ◌↔◌, ◌⊎◌, inl, inr, refl, not, ◌++◌, if◌then◌else◌, Bool, true, false, Option, none,
  some, List, [], ◌∷◌, Bytes, codes, arith, Bool-cases,
}
use thing.CString.{snprintf}
use thing.Files.{Tree}
use thing.Format.{atoi, is_valid_username, is_valid_port, is_positive}
use thing.Scan.{sscanf, field}
use thing.Server.Account.{
  client_handle_register, client_handle_login, client_handle_logout, client_handle_delete_account,
  deleted, delete_command,
}
use thing.Server.Dispatch
use thing.Server.Dispatch.{ClientHandler, run_client}
use thing.Server.Remote.Answers.{dispatch_account_exists, dispatch_set_trustline}
use thing.Server.Remote.{
  server_as_client_connection_handler, server_as_client_handle_account_exists,
  server_as_client_handle_set_trustline, query_server, receive_response,
  server_as_client_dispatch_command,
}
use thing.Server.Trust.{
  add_connection, connect_and_ask, finish_connection, client_handle_add_connection,
  request_trustline, returned, set_trustline_fields, client_handle_set_trustline, trustline_args,
  or_none, or_default, local_address,
}
use thing.Server.Types.{
  Link, Session, Server, State, Reply, Outcome, replied, faulted, auth_required, connection_failed,
  invalid_port, invalid_username, server_default_port, default_user,
}

-- The handlers that read their arguments with no test for NULL.
abbrev pub ReadsArguments : ClientHandler → Type 0
ReadsArguments Dispatch.add_connection = Unit
ReadsArguments Dispatch.set_trustline = Unit
ReadsArguments _ = ⊥

-- The server that a request for a trustline names can be reached, and the exchange with it fails.
abbrev pub LosesTrustline : Server → State → Bytes → Bytes → Bytes → Bytes → Type 0
LosesTrustline srv st remote address port_str size =
    let ssl : Link = record { host = address; port = atoi port_str } in
    (is_valid_username remote ≡ true)
    × (is_valid_port port_str ≡ true)
    × (srv.net.connects ssl ≡ true)
    × ((srv.net.exchange ssl
          (snprintf 768 (
            codes "SET_TRUSTLINE "
            ++ snprintf 1024 (trustline_args st.session.username remote size)))
          st.tree).0
        ≡ none)

abbrev pub LosesConnection : Server → State → Bytes → Bytes → Bytes → Type 0
LosesConnection srv st remote address port_str =
    let ssl : Link = record { host = address; port = atoi port_str } in
    (is_valid_username remote ≡ true)
    × (is_positive (atoi port_str) ≡ true)
    × (srv.net.connects ssl ≡ true)
    × ((srv.net.exchange ssl (snprintf 256 (codes "ACCOUNT_EXISTS " ++ remote)) st.tree).0 ≡ none)

-- A command connects to another server for an answer that cannot be read: its arguments are as it
-- wants them, the server can be reached, and `SSL_read` fails.
abbrev pub LosesAnswer : Server → State → ClientHandler → Bytes → Type 0
LosesAnswer srv st Dispatch.add_connection a =
    LosesConnection srv st (or_default (field [] (sscanf (255 ∷ 255 ∷ 5 ∷ []) a) 0) default_user)
      (local_address (field [] (sscanf (255 ∷ 255 ∷ 5 ∷ []) a) 1))
      (or_default (field [] (sscanf (255 ∷ 255 ∷ 5 ∷ []) a) 2) server_default_port)
LosesAnswer srv st Dispatch.set_trustline a =
    (remote : Bytes) × (address : Bytes) × (port_str : Bytes) × (size : Bytes) × (sscanf
        (255 ∷ 255 ∷ 5 ∷ 255 ∷ []) a
      ≡ remote ∷ address ∷ port_str ∷ size ∷ [])
    × LosesTrustline srv st remote (or_none address (codes "localhost"))
        (or_none port_str server_default_port) size
LosesAnswer srv st _ a = ⊥

-- A test that answers when it fails.
tested_faults :
    (b : Bool) (x : Reply) (st : State) (y : Outcome × State)
    → ((if not b then (replied x, st) else y).0 ≡ faulted) ↔ ((b ≡ true) × (y.0 ≡ faulted))
tested_faults true x st y = ((λ h. (refl, h)), (λ (e, h). h))
tested_faults false x st y = ((λ h. cc), (λ (e, h). cc))

received_none : (n : ℕ) (r : Option Bytes) → (receive_response n r ≡ none) ↔ (r ≡ none)
unfolding receive_response
received_none n none = ((λ h. refl), (λ h. refl))
received_none n (some bytes) = ((λ h. cc), (λ h. cc))

module _ (srv : Server) where
  finish_connection_faults :
      (remote address port_str : Bytes) (r : Option Bytes × Tree) (s : Session)
      → ((finish_connection srv remote address port_str r s).0 ≡ faulted) ↔ (r.0 ≡ none)
  unfolding finish_connection
  finish_connection_faults remote address port_str (none, t) s = ((λ h. refl), (λ h. refl))
  finish_connection_faults remote address port_str (some response, t) s =
      ((λ h. ground arith), (λ h. cc))

  returned_faults :
      (r : Option Bytes × Tree) (s : Session) → ((returned r s).0 ≡ faulted) ↔ (r.0 ≡ none)
  unfolding returned
  returned_faults (none, t) s = ((λ h. refl), (λ h. refl))
  returned_faults (some response, t) s = ((λ h. cc), (λ h. cc))

  connect_and_ask_faults :
      (remote address port_str : Bytes) (st : State)
      → ((connect_and_ask srv remote address port_str st).0 ≡ faulted) ↔ (
          (srv.net.connects (record { host = address; port = atoi port_str }) ≡ true)
          × ((srv.net.exchange
                (record { host = address; port = atoi port_str })
                (snprintf 256 (codes "ACCOUNT_EXISTS " ++ remote))
                st.tree).0
              ≡ none))
  unfolding connect_and_ask
  connect_and_ask_faults remote address port_str st =
      let ssl : Link = record { host = address; port = atoi port_str } in
      let r : Option Bytes × Tree =
        server_as_client_dispatch_command srv.net ssl (codes "ACCOUNT_EXISTS") remote st.tree in
      let outer =
        tested_faults (srv.net.connects ssl) connection_failed st
          (finish_connection srv remote address port_str r st.session) in
      let inner = finish_connection_faults remote address port_str r st.session in
      let asked : (r.0 ≡ none) ↔ (
          (srv.net.exchange ssl (snprintf 256 (codes "ACCOUNT_EXISTS " ++ remote)) st.tree).0
          ≡ none) =
        rw dispatch_account_exists
          (unfold server_as_client_handle_account_exists query_server in received_none 1024 _) in
      (
        (λ h. let k = outer.0 h in (k.0, asked.0 (inner.0 k.1))),
        (λ (c, e). outer.1 (c, inner.1 (asked.1 e))),
      )

  add_connection_faults :
      (remote address port_str : Bytes) (st : State)
      → ((add_connection srv remote address port_str st).0 ≡ faulted)
        ↔ LosesConnection srv st remote address port_str
  unfolding add_connection
  add_connection_faults remote address port_str st =
      let last = connect_and_ask srv remote address port_str st in
      let port = tested_faults (is_positive (atoi port_str)) invalid_port st last in
      let name = tested_faults (is_valid_username remote) invalid_username st _ in
      let asked = connect_and_ask_faults remote address port_str st in
      (
        (λ h.
            let k = name.0 h in let l = port.0 k.1 in let m = asked.0 l.1 in (k.0, l.0, m.0, m.1)),
        (λ (v, p, c, e). name.1 (v, port.1 (p, asked.1 (c, e)))),
      )

  connection_handler_faults :
      (ssl : Link) (args : Bytes) (t : Tree)
      → ((server_as_client_connection_handler srv.net ssl (codes "SET_TRUSTLINE") args t).0 ≡ none)
        ↔ ((srv.net.connects ssl ≡ true)
            × ((srv.net.exchange ssl (snprintf 768 (codes "SET_TRUSTLINE " ++ args)) t).0 ≡ none))
  unfolding server_as_client_connection_handler
  connection_handler_faults ssl args t = elim (Bool-cases (srv.net.connects ssl)) [
    | inl e ↦
        let asked : ((server_as_client_handle_set_trustline srv.net ssl args t).0 ≡ none)
            ↔ ((srv.net.exchange ssl (snprintf 768 (codes "SET_TRUSTLINE " ++ args)) t).0 ≡ none) =
          unfold server_as_client_handle_set_trustline query_server in received_none 1024 _ in
        rw (e, dispatch_set_trustline) ((λ h. (refl, asked.0 h)), (λ (c, h). asked.1 h))
    | inr e ↦ rw e ((λ h. cc), (λ (c, h). cc))
  ]

  request_trustline_faults :
      (remote address port_str size : Bytes) (st : State)
      → ((request_trustline srv remote address port_str size st).0 ≡ faulted)
        ↔ LosesTrustline srv st remote address port_str size
  unfolding request_trustline
  request_trustline_faults remote address port_str size st =
      let ssl : Link = record { host = address; port = atoi port_str } in
      let args = snprintf 1024 (trustline_args st.session.username remote size) in
      let r =
        server_as_client_connection_handler srv.net ssl (codes "SET_TRUSTLINE") args st.tree in
      let port = tested_faults (is_valid_port port_str) invalid_port st (returned r st.session) in
      let name = tested_faults (is_valid_username remote) invalid_username st _ in
      let asked = connection_handler_faults ssl args st.tree in
      let back = returned_faults r st.session in
      (
        (λ h.
            let k = name.0 h in
            let l = port.0 k.1 in let m = asked.0 (back.0 l.1) in (k.0, l.0, m.0, m.1)),
        (λ (v, p, c, e). name.1 (v, port.1 (p, back.1 (asked.1 (c, e))))),
      )

  same_fields :
      {a b c d e f g h : Bytes}
      → a ∷ b ∷ c ∷ d ∷ [] ≡ e ∷ f ∷ g ∷ h ∷ []
      → (a ≡ e) × (b ≡ f) × (c ≡ g) × (d ≡ h)
  same_fields k = (cc, cc, cc, cc)

  set_trustline_faults :
      (fields : List Bytes) (st : State)
      → ((set_trustline_fields srv fields st).0 ≡ faulted) ↔ (
          (remote : Bytes) × (address : Bytes) × (port_str : Bytes) × (size : Bytes) × (fields
            ≡ remote ∷ address ∷ port_str ∷ size ∷ [])
          × LosesTrustline srv st remote
              (or_none address (codes "localhost"))
              (or_none port_str server_default_port)
              size)
  unfolding set_trustline_fields
  set_trustline_faults (r ∷ a ∷ p ∷ size ∷ []) st =
      let iff =
        request_trustline_faults r (or_none a (codes "localhost")) (or_none p server_default_port)
          size st in
      (
        (λ h. (r, a, p, size, refl, iff.0 h)),
        (λ (r2, a2, p2, size2, e, l).
            let (er, ea, ep, es) = same_fields e in iff.1 (rw (er, ea, ep, es) l)),
      )
  set_trustline_faults [] st = ((λ h. cc), (λ (r, a, p, size, e, l). cc))
  set_trustline_faults (a ∷ []) st = ((λ h. cc), (λ (r, b, p, size, e, l). cc))
  set_trustline_faults (a ∷ b ∷ []) st = ((λ h. cc), (λ (r, c, p, size, e, l). cc))
  set_trustline_faults (a ∷ b ∷ c ∷ []) st = ((λ h. cc), (λ (r, d, p, size, e, l). cc))
  set_trustline_faults (a ∷ b ∷ c ∷ d ∷ e ∷ f) st = ((λ h. cc), (λ (r, g, p, size, k, l). cc))

  deleted_replies : (r : Bool × Tree) (st : State) → (deleted r st).0 ≢ faulted
  unfolding deleted
  deleted_replies (true, t) st h = cc
  deleted_replies (false, t) st h = cc

  delete_account_replies :
      (args : Option Bytes) (st : State) → (client_handle_delete_account srv args st).0 ≢ faulted
  unfolding client_handle_delete_account
  delete_account_replies args st h =
      ground (arith, deleted_replies (srv.os.system (delete_command srv st.session) st.tree) st)

  register_replies :
      (args : Option Bytes) (st : State) → (client_handle_register srv args st).0 ≢ faulted
  unfolding client_handle_register
  register_replies none st h = cc
  register_replies (some a) st h = cc

  login_replies : (args : Option Bytes) (st : State) → (client_handle_login srv args st).0 ≢ faulted
  unfolding client_handle_login
  login_replies none st h = cc
  login_replies (some a) st h = cc

  logout_replies :
      (args : Option Bytes) (st : State) → (client_handle_logout srv args st).0 ≢ faulted
  unfolding client_handle_logout
  logout_replies none st h = cc
  logout_replies (some a) st h = cc

  some_text : {a b : Bytes} → some a ≡ some b → a ≡ b
  some_text h = cc

  something : {a : Bytes} → some a ≡ none → ⊥
  something h = cc

  -- What must be the case for a command to fault.
  abbrev pub FaultsAt : ClientHandler → Option Bytes → State → Type 0
  FaultsAt h args st =
      (st.session.authenticated ≡ true)
      × ((ReadsArguments h × (args ≡ none))
          ⊎ ((a : Bytes) × (args ≡ some a) × LosesAnswer srv st h a))

  -- A handler that asks no other server, and reads no arguments without a test.
  quiet_iff :
      (h : ClientHandler) (args : Option Bytes) (st : State)
      → (run_client srv h args st).0 ≢ faulted
      → (ReadsArguments h → ⊥)
      → ((a : Bytes) → LosesAnswer srv st h a → ⊥)
      → ((run_client srv h args st).0 ≡ faulted) ↔ FaultsAt h args st
  quiet_iff h args st replies reads loses = (
    (λ f. absurd (replies f)),
    (λ (l, w). elim w [ inl (r, e) ↦ absurd (reads r) | inr (a, e, k) ↦ absurd (loses a k) ]),
  )

  add_connection_iff :
      (args : Option Bytes) (st : State)
      → ((client_handle_add_connection srv args st).0 ≡ faulted)
        ↔ FaultsAt Dispatch.add_connection args st
  unfolding client_handle_add_connection
  add_connection_iff none st =
      let outer = tested_faults st.session.authenticated auth_required st (faulted, st) in
      ((λ h. ((outer.0 h).0, inl (tt, refl))), (λ (l, w). outer.1 (l, refl)))
  add_connection_iff (some a) st =
      let fields = sscanf (255 ∷ 255 ∷ 5 ∷ []) a in
      let remote = or_default (field [] fields 0) default_user in
      let address = local_address (field [] fields 1) in
      let port_str = or_default (field [] fields 2) server_default_port in
      let outer =
        tested_faults st.session.authenticated auth_required st
          (add_connection srv remote address port_str st) in
      let inner = add_connection_faults remote address port_str st in
      (
        (λ h. let k = outer.0 h in (k.0, inr (a, refl, inner.0 k.1))),
        (λ (l, w). elim w [
          | inl (r, e) ↦ absurd (something e)
          | inr (b, e, k) ↦ outer.1 (l, inner.1 (rw (← some_text e) at k))
        ]),
      )

  set_trustline_iff :
      (args : Option Bytes) (st : State)
      → ((client_handle_set_trustline srv args st).0 ≡ faulted)
        ↔ FaultsAt Dispatch.set_trustline args st
  unfolding client_handle_set_trustline
  set_trustline_iff none st =
      let outer = tested_faults st.session.authenticated auth_required st (faulted, st) in
      ((λ h. ((outer.0 h).0, inl (tt, refl))), (λ (l, w). outer.1 (l, refl)))
  set_trustline_iff (some a) st =
      let fields = sscanf (255 ∷ 255 ∷ 5 ∷ 255 ∷ []) a in
      let outer =
        tested_faults st.session.authenticated auth_required st
          (set_trustline_fields srv fields st) in
      let inner = set_trustline_faults fields st in
      (
        (λ h. let k = outer.0 h in (k.0, inr (a, refl, inner.0 k.1))),
        (λ (l, w). elim w [
          | inl (r, e) ↦ absurd (something e)
          | inr (b, e, k) ↦ outer.1 (l, inner.1 (rw (← some_text e) at k))
        ]),
      )

  -- A client's command faults exactly if the session is logged in and the command is ADD_CONNECTION
  -- or SET_TRUSTLINE, and it has no arguments at all, or it has such as lead it to ask another
  -- server, which can be reached and whose answer cannot be read.
  pub run_client_faults_iff :
      (h : ClientHandler) (args : Option Bytes) (st : State)
      → ((run_client srv h args st).0 ≡ faulted) ↔ FaultsAt h args st
  run_client_faults_iff Dispatch.login args st =
      quiet_iff Dispatch.login args st (λ f. login_replies args st (unfold run_client in f))
        (λ r. r) (λ a k. k)
  run_client_faults_iff Dispatch.register args st =
      quiet_iff Dispatch.register args st (λ f. register_replies args st (unfold run_client in f))
        (λ r. r) (λ a k. k)
  run_client_faults_iff Dispatch.logout args st =
      quiet_iff Dispatch.logout args st (λ f. logout_replies args st (unfold run_client in f))
        (λ r. r) (λ a k. k)
  run_client_faults_iff Dispatch.delete_account args st =
      quiet_iff Dispatch.delete_account args st
        (λ f. delete_account_replies args st (unfold run_client in f)) (λ r. r) (λ a k. k)
  run_client_faults_iff Dispatch.add_connection args st =
      unfold run_client in add_connection_iff args st
  run_client_faults_iff Dispatch.set_trustline args st =
      unfold run_client in set_trustline_iff args st
