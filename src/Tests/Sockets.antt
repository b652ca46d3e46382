-- ===== src/Tests/Sockets.antt =====
-- The theorems on sockets at concrete inputs.
use thing.Prelude.{
  ℕ, ◌≡◌, ◌⊎◌, refl, true, false, ◌||◌, ◌&&◌, not, none, some, List, [], ◌∷◌, if◌then◌else◌,
}
use thing.Sockets.{
  Handles, Address, Attempt, establish_connection, for_server, Arrival, handle_new_connection,
}
use thing.Sockets.Outgoing.{Succeeds, establish_connection_lem}
use thing.Sockets.Incoming.{is_known, handle_new_connection_holds}
use thing.Tests.{program}

-- The second address refuses the connection.
abbrev addresses : List Address
addresses =
    record { socket = none; connects = true }
    ∷ record { socket = some 5; connects = false }
    ∷ record { socket = some 6; connects = true }
    ∷ []

abbrev idle : Handles
idle = record { sockets = 3 ∷ []; ssls = [] }

abbrev attempt : Attempt
attempt = record {
  has_context = true;
  res = some addresses;
  sends_header = true;
  ssl = some 9;
  shakes_hands = true;
}

abbrev arrival : Arrival
arrival = record { header = some 2; ssl = 8; accepted = true; started = true }

establish_connection_lem_example :
    (establish_connection attempt idle ≡ (none, idle))
    ⊎ ((sock ssl : ℕ) × Succeeds attempt sock ssl
        × (establish_connection attempt idle
            ≡ (some ssl, record { sockets = sock ∷ idle.sockets; ssls = ssl ∷ idle.ssls })))
establish_connection_lem_example = establish_connection_lem attempt idle

server_thread : (handle_new_connection 4 arrival idle).0 ≡ some (for_server true)
unfolding program
server_thread = refl

handle_new_connection_holds_example :
    (handle_new_connection 4 arrival (record idle { sockets = 4 ∷ idle.sockets })).1 ≡ (
      if is_known arrival.header && (not arrival.accepted || arrival.started)
      then record { sockets = 4 ∷ idle.sockets; ssls = arrival.ssl ∷ idle.ssls }
      else idle)
handle_new_connection_holds_example = handle_new_connection_holds 4 arrival idle
