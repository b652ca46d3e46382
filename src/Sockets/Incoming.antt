-- ===== src/Sockets/Incoming.antt =====
-- What becomes of a connection that was accepted.
use thing.Sockets.Outgoing.{released_head}
use thing.Prelude.{
  Option-cases, ◌||◌, ◌&&◌, not, ℕ, ◌≡◌, inl, inr, ap, Bool, false, Option, none, some, ◌∷◌, arith,
  if◌then◌else◌, ◌==◌,
}
use thing.Sockets.{
  Handles, close, ssl_free, Arrival, accept_as, by_type, received_type, handle_new_connection,
  client_connection, server_connection,
}

abbrev pub is_known : Option ℕ → Bool
is_known none = false
is_known (some type) = type == client_connection || type == server_connection

-- With an accepted socket, the process holds the socket and a new SSL object in the end exactly if
-- the type in the header is known, and a thread was started or `SSL_accept` failed; in all other
-- cases it holds what it held before the socket was accepted.
pub handle_new_connection_holds :
    (sock : ℕ) (a : Arrival) (h : Handles)
    → (handle_new_connection sock a (record h { sockets = sock ∷ h.sockets })).1 ≡ (
        if is_known a.header && (not a.accepted || a.started)
        then record { sockets = sock ∷ h.sockets; ssls = a.ssl ∷ h.ssls }
        else h)
unfolding handle_new_connection
handle_new_connection_holds sock a h = elim (Option-cases a.header) [
  | inl e ↦ rw e (
      unfold received_type close in
      ap (λ s. record h { sockets = s }) (released_head sock h.sockets))
  | inr (type, e) ↦ rw e (
      unfold received_type by_type accept_as close ssl_free in
      ground (arith, released_head sock h.sockets, released_head a.ssl h.ssls))
]
