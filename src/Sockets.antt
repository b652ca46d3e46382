-- ===== src/Sockets.antt =====
-- src/common/net_utils.c, `establish_connection` of src/server/network.c, the handshake of
-- src/common/ssl_utils.c, and src/server/connection_handler.c: who holds a socket and an SSL
-- object, and who lets go of it.
pub mod Outgoing
pub mod Incoming
use thing.Prelude.{
  ℕ, Bool, true, false, Option, none, some, List, [], ◌∷◌, Bytes, ◌==◌, if◌then◌else◌,
}

-- The sockets and the SSL objects that the process holds.
pub record Handles : Type 0 where
  pub sockets : List ℕ
  pub ssls : List ℕ

unfoldable pub released : ℕ → List ℕ → List ℕ
released n [] = []
released n (m ∷ ms) = let rest = released n ms in if n == m then ms else m ∷ rest

-- `close`, and `SSL_free`, which leaves the socket as it is.
unfoldable pub close : ℕ → Handles → Handles
close sock h = record h { sockets = released sock h.sockets }

unfoldable pub ssl_free : ℕ → Handles → Handles
ssl_free ssl h = record h { ssls = released ssl h.ssls }

-- What `socket` and `connect` give for one address: -1 is `none`.
pub record Address : Type 0 where
  pub socket : Option ℕ
  pub connects : Bool

-- One turn of the loop at an address, and the turns behind it.
unfoldable pub try_address :
    Option ℕ → Bool → (Handles → Option ℕ × Handles) → Handles → Option ℕ × Handles
try_address none connects rest h = rest h
try_address (some sock) connects rest h =
    let held = record h { sockets = sock ∷ h.sockets } in
    if connects then (some sock, held) else rest (close sock held)

unfoldable pub create_and_connect_socket : List Address → Handles → Option ℕ × Handles
create_and_connect_socket [] h = (none, h)
create_and_connect_socket (a ∷ res) h =
    try_address a.socket a.connects (create_and_connect_socket res) h

-- What the resolver, the peer and OpenSSL give to one attempt at a connection. `res` is what
-- `getaddrinfo` finds for the host and the port; `ssl` is what `SSL_new` gives.
pub record Attempt : Type 0 where
  pub has_context : Bool
  pub res : Option (List Address)
  pub sends_header : Bool
  pub ssl : Option ℕ
  pub shakes_hands : Bool

unfoldable pub open_connection : Option (List Address) → Handles → Option ℕ × Handles
open_connection none h = (none, h)
open_connection (some res) h = create_and_connect_socket res h

unfoldable pub setup_ssl_client_connection : Option ℕ → Bool → Handles → Option ℕ × Handles
setup_ssl_client_connection none shakes_hands h = (none, h)
setup_ssl_client_connection (some ssl) shakes_hands h =
    let held = record h { ssls = ssl ∷ h.ssls } in
    if shakes_hands then (some ssl, held) else (none, ssl_free ssl held)

-- `if (ssl == NULL) { close(sockfd); return NULL; }`
unfoldable pub checked_ssl : ℕ → (Option ℕ × Handles) → Option ℕ × Handles
checked_ssl sockfd (none, h) = (none, close sockfd h)
checked_ssl sockfd (some ssl, h) = (some ssl, h)

unfoldable pub over_socket : Attempt → (Option ℕ × Handles) → Option ℕ × Handles
over_socket a (none, h) = (none, h)
over_socket a (some sockfd, h) =
    if a.sends_header
    then checked_ssl sockfd (setup_ssl_client_connection a.ssl a.shakes_hands h)
    else (none, close sockfd h)

unfoldable pub establish_connection : Attempt → Handles → Option ℕ × Handles
establish_connection a h =
    if a.has_context then over_socket a (open_connection a.res h) else (none, h)

-- The byte of the protocol header, and whom the thread is for.
abbrev pub client_connection : ℕ
client_connection = 1

abbrev pub server_connection : ℕ
server_connection = 2

-- A thread that was started, and whether `SSL_set_verify` had asked for a certificate.
pub data Thread : Type 0 where
  for_client : Thread
  for_server : Bool → Thread

-- What `recv`, `SSL_new`, `SSL_accept` and `pthread_create` give for one connection. `SSL_new` is
-- taken to succeed.
pub record Arrival : Type 0 where
  pub header : Option ℕ
  pub ssl : ℕ
  pub accepted : Bool
  pub started : Bool

unfoldable pub accept_as : Thread → ℕ → Arrival → Handles → Option Thread × Handles
accept_as thread sock a h =
    if a.accepted
    then if a.started then (some thread, h) else (none, close sock (ssl_free a.ssl h))
    else (none, h)

-- The branches on the type of the connection, with the SSL object made.
unfoldable pub by_type : ℕ → ℕ → Arrival → Handles → Option Thread × Handles
by_type type sock a h =
    if type == client_connection
    then accept_as for_client sock a h
    else if type == server_connection
    then accept_as (for_server true) sock a h
    else (none, close sock (ssl_free a.ssl h))

unfoldable pub received_type : Option ℕ → ℕ → Arrival → Handles → Option Thread × Handles
received_type none sock a h = (none, close sock h)
received_type (some type) sock a h = by_type type sock a (record h { ssls = a.ssl ∷ h.ssls })

unfoldable pub handle_new_connection : ℕ → Arrival → Handles → Option Thread × Handles
handle_new_connection sock a h = received_type a.header sock a h
