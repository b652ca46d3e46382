-- ===== src/Server/Main/Accepts.antt =====
-- What the server holds after a row of connections.
use thing.Prelude.{
  ◌+◌, length, arith, Option-cases, ℕ, ◌≡◌, not, ◌&&◌, Option, none, some, List, [], ◌∷◌, inl, inr,
  if◌then◌else◌,
}
use thing.Sockets.{
  Handles, Arrival, Thread, handle_new_connection, received_type, by_type, accept_as, close,
  ssl_free,
}
use thing.Sockets.Outgoing.{released_head}
use thing.Sockets.Incoming.{is_known}
use thing.Server.Main.{accept_loop, started}

-- How many threads stand for an arrival, and whether its handshake failed.
abbrev pub count : Option Thread → ℕ
count none = 0
count (some thread) = 1

abbrev pub failed : Arrival → ℕ
failed a = if is_known a.header && not a.accepted then 1 else 0

pub failures : List (Option (ℕ × Arrival)) → ℕ
failures [] = 0
failures (none ∷ arrivals) = failures arrivals
failures (some (client, a) ∷ arrivals) = failed a + failures arrivals

arrival_counts :
    (sock : ℕ) (a : Arrival) (h : Handles)
    → length (handle_new_connection sock a (record h { sockets = sock ∷ h.sockets })).1.sockets
      ≡ length h.sockets
        + count (handle_new_connection sock a (record h { sockets = sock ∷ h.sockets })).0
        + failed a
unfolding handle_new_connection
arrival_counts sock a h = elim (Option-cases a.header) [
  | inl e ↦ rw e (unfold received_type close in rw (released_head sock h.sockets) (omega arith))
  | inr (type, e) ↦ rw e (
      unfold received_type by_type accept_as close ssl_free in
      ground (arith, released_head sock h.sockets, released_head a.ssl h.ssls))
]

length-started :
    (o : Option Thread) (ts : List Thread) → length (started o ts) ≡ count o + length ts
unfolding started
length-started none ts = omega arith
length-started (some t) ts = omega arith

-- After any row of connections the server holds one socket more for each thread that it started,
-- and one more for each connection with a known type whose handshake failed. What the threads close
-- themselves is not counted.
pub accept_loop-holds :
    (arrivals : List (Option (ℕ × Arrival))) (h : Handles)
    → length (accept_loop arrivals h).1.sockets
      ≡ length h.sockets + length (accept_loop arrivals h).0 + failures arrivals
unfolding accept_loop failures
accept_loop-holds [] h = omega arith
accept_loop-holds (none ∷ arrivals) h = accept_loop-holds arrivals h
accept_loop-holds (some (client, a) ∷ arrivals) h =
    let (thread, g) = handle_new_connection client a (record h { sockets = client ∷ h.sockets }) in
    omega (
      arith,
      arrival_counts client a h,
      length-started thread (accept_loop arrivals g).0,
      accept_loop-holds arrivals g,
    )
