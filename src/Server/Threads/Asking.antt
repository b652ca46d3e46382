-- ===== src/Server/Threads/Asking.antt =====
-- ADD_CONNECTION and SET_TRUSTLINE of a client, call by call: they leave the session as it is, and keep
-- of the files what new directories and other servers keep.
use thing.Prelude.{
  Bool, true, false, not, ◌&&◌, Option, none, some, List, [], ◌∷◌, Bytes, codes, if◌then◌else◌,
}
use thing.CString.{same, snprintf}
use thing.Commands.{find_command_handler}
use thing.Files.{Tree, access, mkdir}
use thing.Format.{is_valid_username, is_valid_port, is_positive, atoi}
use thing.Scan.{sscanf, field}
use thing.Server.Remote
use thing.Server.Remote.{
  AsClientHandler, run_as_client, server_as_client_dispatch_command, server_as_client_commands,
  server_as_client_connection_handler,
}
use thing.Server.Threads.Directories.{directories-Keeps}
use thing.Server.Threads.Handlers.{
  make_dirs_calls, returned_response, add_account_calls, finish_connection_calls,
  connect_and_ask_calls, add_connection_calls, request_trustline_calls, trustline_fields_calls,
  set_trustline_calls,
}
use thing.Server.Threads.Program.{
  Program, done, call, ◌>>=◌, Ends, Ends-bind, Keeps, Keeps-bind, Keeps-either,
}
use thing.Server.Trust.{or_default, or_none, local_address, connection_path}
use thing.Server.Types.{server_default_port, default_user, Session, Server, Link, Outcome}

pub Ends-all : {A : Type 0} (P : A → Type 0) (m : Program A) → ((a : A) → P a) → Ends P m
Ends-all P (done a) h = h a
Ends-all P (call act rest) h = λ t. Ends-all P (rest t) h

pub Ends-if :
    {A : Type 0} (P : A → Type 0) (b : Bool) (m n : Program A)
    → Ends P m
    → Ends P n
    → Ends P (if b then m else n)
Ends-if P true m n h k = h
Ends-if P false m n h k = k

-- A result with a session that has `P`.
abbrev pub Leaving : (Session → Type 0) → Outcome × Session → Type 0
Leaving P r = P r.1

module _ (srv : Server) (P : Session → Type 0) where
  abbrev Leaves : Outcome × Session → Type 0
  Leaves = Leaving P

  finish_connection-Ends :
      (remote address port_str : Bytes) (response : Option Bytes) (s : Session)
      → P s
      → Ends Leaves (finish_connection_calls srv remote address port_str response s)
  unfolding finish_connection_calls
  finish_connection-Ends remote address port_str none s n = n
  finish_connection-Ends remote address port_str (some response) s n =
      let m = add_account_calls srv remote address port_str s in
      Ends-if Leaves (not (same response (codes "ACCOUNT_EXISTS"))) _ _ n (
        Ends-if Leaves (same address (codes "localhost") && same remote s.username) _ _ n
          (Ends-bind (λ r. Unit {0}) Leaves m _ (Ends-all (λ r. Unit {0}) m (λ r. tt)) (λ r u. n)))

  connect_and_ask-Ends :
      (remote address port_str : Bytes) (s : Session)
      → P s
      → Ends Leaves (connect_and_ask_calls srv remote address port_str s)
  unfolding connect_and_ask_calls ◌>>=◌
  connect_and_ask-Ends remote address port_str s n =
      Ends-if Leaves (not (srv.net.connects (record { host = address; port = atoi port_str }))) _ _
        n (λ t. finish_connection-Ends remote address port_str _ s n)

  pub add_connection-Ends :
      (args : Option Bytes) (s : Session) → P s → Ends Leaves (add_connection_calls srv args s)
  unfolding add_connection_calls
  add_connection-Ends none s n = Ends-if Leaves (not s.authenticated) _ _ n n
  add_connection-Ends (some a) s n =
      let fields = sscanf (255 ∷ 255 ∷ 5 ∷ []) a in
      let remote = or_default (field [] fields 0) default_user in
      let port_str = or_default (field [] fields 2) server_default_port in
      Ends-if Leaves (not s.authenticated) _ _ n (
        Ends-if Leaves (not (is_valid_username remote)) _ _ n (
          Ends-if Leaves (not (is_positive (atoi port_str))) _ _ n
            (connect_and_ask-Ends remote (local_address (field [] fields 1)) port_str s n)))

  returned-Leaves :
      (response : Option Bytes) (s : Session) → P s → Leaves (returned_response response s)
  unfolding returned_response
  returned-Leaves none s n = n
  returned-Leaves (some response) s n = n

  request_trustline-Ends :
      (remote address port_str size : Bytes) (s : Session)
      → P s
      → Ends Leaves (request_trustline_calls srv remote address port_str size s)
  unfolding request_trustline_calls ◌>>=◌
  request_trustline-Ends remote address port_str size s n =
      Ends-if Leaves (not (is_valid_username remote)) _ _ n
        (Ends-if Leaves (not (is_valid_port port_str)) _ _ n (λ t. returned-Leaves _ s n))

  trustline_fields-Ends :
      (fields : List Bytes) (s : Session) → P s → Ends Leaves (trustline_fields_calls srv fields s)
  unfolding trustline_fields_calls
  trustline_fields-Ends (remote ∷ address ∷ port_str ∷ size ∷ []) s n =
      request_trustline-Ends remote (or_none address (codes "localhost"))
        (or_none port_str server_default_port) size s n
  trustline_fields-Ends [] s n = n
  trustline_fields-Ends (a ∷ []) s n = n
  trustline_fields-Ends (a ∷ b ∷ []) s n = n
  trustline_fields-Ends (a ∷ b ∷ c ∷ []) s n = n
  trustline_fields-Ends (a ∷ b ∷ c ∷ d ∷ e ∷ r) s n = n

  pub set_trustline-Ends :
      (args : Option Bytes) (s : Session) → P s → Ends Leaves (set_trustline_calls srv args s)
  unfolding set_trustline_calls
  set_trustline-Ends none s n = Ends-if Leaves (not s.authenticated) _ _ n n
  set_trustline-Ends (some a) s n =
      Ends-if Leaves (not s.authenticated) _ _ n
        (trustline_fields-Ends (sscanf (255 ∷ 255 ∷ 5 ∷ 255 ∷ []) a) s n)

-- What a new directory and an exchange with another server keep of the files.
pub record KeepsAsking (srv : Server) (I : Tree → Type 0) : Type 0 where
  pub mkdir : (path : Bytes) (t : Tree) → I t → I (mkdir srv.os path t).1
  pub exchange : (l : Link) (request : Bytes) (t : Tree) → I t → I (srv.net.exchange l request t).1

module _ (srv : Server) (I : Tree → Type 0) (k : KeepsAsking srv I) where
  if-keeps : {A : Type 0} (b : Bool) (x y : A × Tree) → I x.1 → I y.1 → I (if b then x else y).1
  if-keeps true x y h k = h
  if-keeps false x y h k = k

  run_as_client-keeps :
      (l : Link) (h : AsClientHandler) (args : Bytes) (t : Tree)
      → I t
      → I (run_as_client srv.net l h args t).1
  unfolding run_as_client Remote.server_as_client_handle_account_exists
      Remote.server_as_client_handle_set_trustline Remote.query_server
  run_as_client-keeps l Remote.ask_account_exists args t w = k.exchange l _ t w
  run_as_client-keeps l Remote.ask_set_trustline args t w = k.exchange l _ t w

  answered-keeps :
      (l : Link) (h : Option AsClientHandler) (args : Bytes) (t : Tree)
      → I t
      → I (Remote.answered srv.net l h args t).1
  unfolding Remote.answered
  answered-keeps l none args t w = w
  answered-keeps l (some h) args t w = run_as_client-keeps l h args t w

  asked-keeps :
      (l : Link) (command args : Bytes) (t : Tree)
      → I t
      → I (server_as_client_dispatch_command srv.net l command args t).1
  unfolding server_as_client_dispatch_command
  asked-keeps l command args t w =
      answered-keeps l (find_command_handler command server_as_client_commands) args t w

  add_account-Keeps :
      (username address port_str : Bytes) (s : Session)
      → Keeps I (add_account_calls srv username address port_str s)
  unfolding add_account_calls ◌>>=◌
  add_account-Keeps username address port_str s =
      let user_dir =
        snprintf 1280 (connection_path srv.datadir s.username address port_str username) in
      λ t w. (
        w,
        Keeps-either I (access srv.os user_dir t) _ _ tt (
            Keeps-bind I (make_dirs_calls srv.os user_dir) _
              (directories-Keeps srv.os I k.mkdir user_dir) (λ made. tt)),
      )

  finish_connection-Keeps :
      (remote address port_str : Bytes) (response : Option Bytes) (s : Session)
      → Keeps I (finish_connection_calls srv remote address port_str response s)
  unfolding finish_connection_calls
  finish_connection-Keeps remote address port_str none s = tt
  finish_connection-Keeps remote address port_str (some response) s =
      Keeps-either I (not (same response (codes "ACCOUNT_EXISTS"))) _ _ tt (
        Keeps-either I (same address (codes "localhost") && same remote s.username) _ _ tt (
          Keeps-bind I (add_account_calls srv remote address port_str s) _
            (add_account-Keeps remote address port_str s) (λ r. tt)))

  connect_and_ask-Keeps :
      (remote address port_str : Bytes) (s : Session)
      → Keeps I (connect_and_ask_calls srv remote address port_str s)
  unfolding connect_and_ask_calls ◌>>=◌
  connect_and_ask-Keeps remote address port_str s =
      let ssl : Link = record { host = address; port = atoi port_str } in
      Keeps-either I (not (srv.net.connects ssl)) _ _ tt (λ t w. (
        asked-keeps ssl (codes "ACCOUNT_EXISTS") remote t w,
        finish_connection-Keeps remote address port_str _ s,
      ))

  pub add_connection-Keeps :
      (args : Option Bytes) (s : Session) → Keeps I (add_connection_calls srv args s)
  unfolding add_connection_calls
  add_connection-Keeps none s = Keeps-either I (not s.authenticated) _ _ tt tt
  add_connection-Keeps (some a) s =
      let fields = sscanf (255 ∷ 255 ∷ 5 ∷ []) a in
      let remote = or_default (field [] fields 0) default_user in
      let port_str = or_default (field [] fields 2) server_default_port in
      Keeps-either I (not s.authenticated) _ _ tt (
        Keeps-either I (not (is_valid_username remote)) _ _ tt (
          Keeps-either I (not (is_positive (atoi port_str))) _ _ tt
            (connect_and_ask-Keeps remote (local_address (field [] fields 1)) port_str s)))

  handler-keeps :
      (l : Link) (command args : Bytes) (t : Tree)
      → I t
      → I (server_as_client_connection_handler srv.net l command args t).1
  unfolding server_as_client_connection_handler
  handler-keeps l command args t w =
      if-keeps (srv.net.connects l) _ _ (asked-keeps l command args t w) w

  request_trustline-Keeps :
      (remote address port_str size : Bytes) (s : Session)
      → Keeps I (request_trustline_calls srv remote address port_str size s)
  unfolding request_trustline_calls ◌>>=◌
  request_trustline-Keeps remote address port_str size s =
      Keeps-either I (not (is_valid_username remote)) _ _ tt (
        Keeps-either I (not (is_valid_port port_str)) _ _ tt (λ t w. (
          handler-keeps (record { host = address; port = atoi port_str }) (codes "SET_TRUSTLINE") _
              t w,
          tt,
        )))

  trustline_fields-Keeps :
      (fields : List Bytes) (s : Session) → Keeps I (trustline_fields_calls srv fields s)
  unfolding trustline_fields_calls
  trustline_fields-Keeps (remote ∷ address ∷ port_str ∷ size ∷ []) s =
      request_trustline-Keeps remote (or_none address (codes "localhost"))
        (or_none port_str server_default_port) size s
  trustline_fields-Keeps [] s = tt
  trustline_fields-Keeps (a ∷ []) s = tt
  trustline_fields-Keeps (a ∷ b ∷ []) s = tt
  trustline_fields-Keeps (a ∷ b ∷ c ∷ []) s = tt
  trustline_fields-Keeps (a ∷ b ∷ c ∷ d ∷ e ∷ r) s = tt

  pub set_trustline-Keeps :
      (args : Option Bytes) (s : Session) → Keeps I (set_trustline_calls srv args s)
  unfolding set_trustline_calls
  set_trustline-Keeps none s = Keeps-either I (not s.authenticated) _ _ tt tt
  set_trustline-Keeps (some a) s =
      Keeps-either I (not s.authenticated) _ _ tt
        (trustline_fields-Keeps (sscanf (255 ∷ 255 ∷ 5 ∷ 255 ∷ []) a) s)
