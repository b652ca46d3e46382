-- ===== src/Sockets/Outgoing.antt =====
-- What a connection to another server holds in the end.
use thing.Prelude.{
  ◌⊎◌, inl, inr, Bool-cases, Option-cases, ℕ, ◌≡◌, refl, Bool, true, false, Option, none, some,
  List, [], ◌∷◌, arith, if◌then◌else◌,
}
use thing.Sockets.{
  Handles, released, close, ssl_free, Address, try_address, create_and_connect_socket, Attempt,
  open_connection, setup_ssl_client_connection, checked_ssl, over_socket, establish_connection,
}

pub released_head : (n : ℕ) (ns : List ℕ) → released n (n ∷ ns) ≡ ns
unfolding released
released_head n ns = ground arith

-- The handles and a socket, if there is one.
abbrev pub and_socket : Option ℕ → Handles → Handles
and_socket none h = h
and_socket (some sock) h = record h { sockets = sock ∷ h.sockets }

first_of : Option ℕ → Bool → Option ℕ → Option ℕ
first_of none connects rest = rest
first_of (some sock) connects rest = if connects then some sock else rest

-- The socket of the first address that gives one which connects.
pub first_connected : List Address → Option ℕ
unfolding first_of
first_connected [] = none
first_connected (a ∷ res) = first_of a.socket a.connects (first_connected res)

try_address_lem :
    (s : Option ℕ) (c : Bool) (res : List Address) (h : Handles)
    → create_and_connect_socket res h ≡ (first_connected res, and_socket (first_connected res) h)
    → try_address s c (create_and_connect_socket res) h
      ≡ (first_of s c (first_connected res), and_socket (first_of s c (first_connected res)) h)
unfolding try_address close first_of
try_address_lem none c res h e = e
try_address_lem (some sock) true res h e = refl
try_address_lem (some sock) false res h e = rw (released_head sock h.sockets) e

-- `create_and_connect_socket` gives the socket of the first address that gives one which connects,
-- or none if there is no such address, and of the sockets that it has opened it holds only that one.
pub create_and_connect_socket_lem :
    (res : List Address) (h : Handles)
    → create_and_connect_socket res h ≡ (first_connected res, and_socket (first_connected res) h)
unfolding create_and_connect_socket first_connected first_of
create_and_connect_socket_lem [] h = refl
create_and_connect_socket_lem (a ∷ res) h =
    try_address_lem a.socket a.connects res h (create_and_connect_socket_lem res h)

-- What an attempt succeeds with: the addresses that were found, the socket that connects, and the
-- SSL object.
pub record Succeeds (a : Attempt) (sock ssl : ℕ) : Type 0 where
  pub context : a.has_context ≡ true
  pub found : List Address
  pub resolved : a.res ≡ some found
  pub connected : first_connected found ≡ some sock
  pub sent : a.sends_header ≡ true
  pub object : a.ssl ≡ some ssl
  pub secured : a.shakes_hands ≡ true

-- `establish_connection` either fails, and holds what it held before, or gives an SSL object, and
-- holds that and the socket of the first address that connects besides; it then had a context, the
-- host was resolved, the header was sent and the handshake was done.
pub establish_connection_lem :
    (a : Attempt) (h : Handles)
    → (establish_connection a h ≡ (none, h))
      ⊎ ((sock ssl : ℕ) × Succeeds a sock ssl
          × (establish_connection a h
              ≡ (some ssl, record { sockets = sock ∷ h.sockets; ssls = ssl ∷ h.ssls })))
unfolding establish_connection open_connection over_socket setup_ssl_client_connection checked_ssl
    close ssl_free
establish_connection_lem a h = elim (Bool-cases a.has_context) [
  | inr e ↦ inl (rw e)
  | inl e ↦ elim (Option-cases a.res) [
    | inl r ↦ inl (rw (e, r))
    | inr (res, r) ↦ elim (Option-cases (first_connected res)) [
      | inl f ↦ inl (rw (e, r, create_and_connect_socket_lem res h, f))
      | inr (sock, f) ↦ elim (Bool-cases a.sends_header) [
        | inr s ↦
            inl (rw (e, r, create_and_connect_socket_lem res h, f, s, released_head sock h.sockets))
        | inl s ↦ elim (Option-cases a.ssl) [
          | inl o ↦ inl (
              rw (e, r, create_and_connect_socket_lem res h, f, s, o, released_head sock h.sockets))
          | inr (ssl, o) ↦ elim (Bool-cases a.shakes_hands) [
            | inr k ↦ inl (
                rw (
                  e,
                  r,
                  create_and_connect_socket_lem res h,
                  f,
                  s,
                  o,
                  k,
                  released_head sock h.sockets,
                  released_head ssl h.ssls,
                ))
            | inl k ↦ inr (
              sock,
              ssl,
              record {
                context = e;
                found = res;
                resolved = r;
                connected = f;
                sent = s;
                object = o;
                secured = k;
              },
              rw (e, r, create_and_connect_socket_lem res h, f, s, o, k),
            )
          ]
        ]
      ]
    ]
  ]
]
