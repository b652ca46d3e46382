-- ===== src/Server/Main.antt =====
-- src/server/main.c, with `create_socket` of src/server/network.c: the start of the server, and its
-- loop over connections.
pub mod Startup
pub mod Accepts
use thing.Prelude.{
  ℕ, Bool, true, false, not, ◌&&◌, Option, none, some, List, [], ◌∷◌, Bytes, if◌then◌else◌,
}
use thing.Contexts.{
  Context, Library, set_verify, create_ssl_client_context, create_ssl_server_context,
  configure_ssl_server_context,
}
use thing.Files.{Tree, Os}
use thing.Database.{initialize_database_directories}
use thing.Sockets.{Handles, Thread, Arrival, handle_new_connection}

-- What OpenSSL and the system give at the start.
pub record Setup : Type 0 where
  pub library : Library
  pub socket : Option ℕ
  pub reuses : Bool
  pub binds : Bool
  pub listens : Bool

-- What the loop of `main` works with.
pub record Running : Type 0 where
  pub sock : ℕ
  pub global_client_ctx : Option Context
  pub server_ctx : Option Context

-- `none` if the process exits.
unfoldable pub create_socket_on : Setup → Option ℕ → Option ℕ
create_socket_on s none = none
create_socket_on s (some sock) =
    if not s.reuses
    then none
    else if not s.binds
    then none
    else if not s.listens
    then none
    else some sock

unfoldable pub create_socket : Setup → Option ℕ
unfolding create_socket_on
create_socket s = create_socket_on s s.socket

-- The contexts and the socket, in the order of `main`; `none` if the process has exited.
unfoldable pub with_socket : Option Context → Option Context → Option ℕ → Option Running
with_socket client server none = none
with_socket client server (some sock) =
    some (record { sock = sock; global_client_ctx = client; server_ctx = server })

unfoldable pub with_server_context :
    Setup → Option Context → Option (Option Context) → Option Running
with_server_context s client none = none
with_server_context s client (some server) = with_socket client server (create_socket s)

unfoldable pub with_new_context : Setup → Option Context → Option Context → Option Running
with_new_context s client none = none
with_new_context s client (some ctx) =
    with_server_context s client (configure_ssl_server_context s.library (some ctx))

unfoldable pub with_client_context : Setup → Option (Option Context) → Option Running
with_client_context s none = none
with_client_context s (some client) =
    with_new_context s (set_verify client) (create_ssl_server_context s.library)

unfoldable pub listening : Setup → Option Running
listening s =
    with_client_context s
      (configure_ssl_server_context s.library (create_ssl_client_context s.library))

-- What `main` does before its loop: `none` if the process has exited, the data directory and the
-- files. The result of `initialize_database_directories` is not looked at.
unfoldable pub start : Os → Option Bytes → Bytes → Setup → Tree → Option Running × Bytes × Tree
start os home datadir s t =
    let (fine, dir, u) = initialize_database_directories os home datadir t in (listening s, dir, u)

-- The loop over what `accept` gives, `none` for a failure; with the threads that were started, the
-- first one first.
unfoldable pub started : Option Thread → List Thread → List Thread
started none threads = threads
started (some thread) threads = thread ∷ threads

unfoldable pub accept_loop : List (Option (ℕ × Arrival)) → Handles → List Thread × Handles
accept_loop [] h = ([], h)
accept_loop (none ∷ arrivals) h = accept_loop arrivals h
accept_loop (some (client, a) ∷ arrivals) h =
    let (thread, g) = handle_new_connection client a (record h { sockets = client ∷ h.sockets }) in
    let (threads, last) = accept_loop arrivals g in (started thread threads, last)
