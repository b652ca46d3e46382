-- ===== src/Tests/Starts.antt =====
-- The theorems on the start of the two programs at concrete inputs.
use thing.Prelude.{
  ℕ, ◌+◌, ◌-◌, ◌^◌, Bytes, if◌then◌else◌, ◌≡◌, ◌↔◌, ◌⊎◌, refl, true, false, some, none, List, [],
  ◌∷◌, Option, codes, length,
}
use thing.Client.Address.Forms.{IsHost, Names, parse_address_iff}
use thing.Client.Address.{parse_address_and_port}
use thing.Client.Launch.Ends.{verifying, Outcome, client_main_lem}
use thing.Client.Console.{unknown_command}
use thing.Client.Launch.{Launch, talked, dialogue_faults, port_text, client_main}
use thing.Client.Served.{serving, line}
use thing.CString.{same}
use thing.Server.Types.{State}
use thing.Tests.Accounts
use thing.Server.Main.Accepts.{failures, accept_loop-holds}
use thing.Server.Main.Startup.{Starts, start_iff, start_contexts}
use thing.Server.Main.{Running, Setup, accept_loop, start}
use thing.Contexts.{Context, Library}
use thing.Sockets.{Handles, Arrival}
use thing.Tests.{obliging, home, demo, program, client_program}

address_with_port : parse_address_and_port (codes "x.org:80/") 2012 ≡ (some (codes "x.org"), 80)
unfolding program client_program
address_with_port = refl

address_with_path : parse_address_and_port (codes "x.org/a") 2012 ≡ (none, 2012)
unfolding program client_program
address_with_path = refl

parse_address_iff_example :
    (parse_address_and_port (codes "x.org:80/") 2012 ≡ (some (codes "x.org"), 80))
    ↔ (IsHost (codes "x.org") × Names (codes "x.org") 2012 (codes "x.org:80/") 80)
parse_address_iff_example = parse_address_iff (codes "x.org:80/") (codes "x.org") 2012 80

abbrev idle : Handles
idle = record { sockets = []; ssls = [] }

abbrev library : Library
library = record {
  makes_client = true;
  makes_server = true;
  sets_paths = true;
  uses_certificate = λ ctx. true;
  uses_private_key = λ ctx. true;
  checks_private_key = λ ctx. true;
}

abbrev launch : List Bytes → Launch State
launch lines = record {
  arguments = codes "x.org:70000" ∷ [];
  library = library;
  resolves = λ host port.
      if same port (codes "70000")
      then some (record { socket = some 3; connects = true } ∷ [])
      else none;
  sends_header = true;
  ssl = some 5;
  shakes_hands = true;
  acknowledgment = some (codes "hello");
  server = serving demo;
  console = record { input = lines; shown = []; server = Accounts.start };
}

-- A user who leaves, and one whose input ends in the middle of LOGIN.
launch_talks : client_main (launch (line (codes "HELLO") ∷ line (codes "EXIT") ∷ [])) idle ≡ (
  talked verifying (record { input = []; shown = unknown_command ∷ []; server = Accounts.start }),
  idle,
)
unfolding program client_program thing.Sockets.open_connection
    thing.Sockets.create_and_connect_socket thing.Sockets.setup_ssl_client_connection
    thing.Sockets.close thing.Sockets.ssl_free thing.Sockets.released thing.Sockets.try_address
    thing.Client.Launch.after_dialogue thing.Client.Launch.port_text thing.Client.Launch.digits_of
launch_talks = refl

launch_faults : client_main (launch (line (codes "LOGIN") ∷ [])) idle ≡ (
  dialogue_faults verifying (record { input = []; shown = []; server = Accounts.start }),
  record { sockets = 3 ∷ []; ssls = 5 ∷ [] },
)
unfolding program client_program thing.Sockets.open_connection
    thing.Sockets.create_and_connect_socket thing.Sockets.setup_ssl_client_connection
    thing.Sockets.close thing.Sockets.ssl_free thing.Sockets.released thing.Sockets.try_address
    thing.Client.Launch.after_dialogue thing.Client.Launch.port_text thing.Client.Launch.digits_of
launch_faults = refl

-- A port of more than five digits is cut, and negative ones keep their sign.
port_texts :
    (port_text 70000 ≡ codes "70000")
    × (port_text 123456 ≡ codes "12345")
    × (port_text (2 ^ 32 - 1) ≡ codes "-1")
unfolding program thing.Client.Launch.port_text thing.Client.Launch.digits_of
port_texts = (refl, refl, refl)

client_main_lem_example : Outcome (launch (line (codes "EXIT") ∷ [])) idle
client_main_lem_example = client_main_lem (launch (line (codes "EXIT") ∷ [])) idle

abbrev setup : Setup
setup = record { library = library; socket = some 3; reuses = true; binds = true; listens = true }

abbrev running : Running
running = record {
  sock = 3;
  global_client_ctx =
      some
        (record { verifies = true; default_paths = true; certificate = true; private_key = true });
  server_ctx =
      some
        (record { verifies = false; default_paths = true; certificate = true; private_key = true });
}

starts : (start obliging (some (codes "/home/bob")) [] setup home).0 ≡ some running
unfolding program client_program
starts = refl

start_iff_example :
    ((start obliging (some (codes "/home/bob")) [] setup home).0 ≡ some running)
    ↔ Starts setup running
start_iff_example = start_iff obliging (some (codes "/home/bob")) [] setup home running

start_contexts_example :
    ((running.global_client_ctx ≡ none)
      ⊎ ((ctx : Context) × (running.global_client_ctx ≡ some ctx)
          × (ctx.verifies ≡ true)
          × (ctx.certificate ≡ true)
          × (ctx.private_key ≡ true)))
    × ((ctx : Context) × (running.server_ctx ≡ some ctx)
        × (ctx.verifies ≡ false)
        × (ctx.certificate ≡ true)
        × (ctx.private_key ≡ true))
start_contexts_example =
    start_contexts obliging (some (codes "/home/bob")) [] setup home running starts

-- A thread, a failure of `accept`, a failed handshake and an unknown type.
abbrev arrivals : List (Option (ℕ × Arrival))
arrivals =
    some (4, record { header = some 1; ssl = 8; accepted = true; started = true })
    ∷ none
    ∷ some (5, record { header = some 2; ssl = 9; accepted = false; started = true })
    ∷ some (6, record { header = some 7; ssl = 9; accepted = true; started = true })
    ∷ []

accept_loop-holds_example :
    length (accept_loop arrivals idle).1.sockets
    ≡ length idle.sockets + length (accept_loop arrivals idle).0 + failures arrivals
accept_loop-holds_example = accept_loop-holds arrivals idle

held_sockets : (accept_loop arrivals idle).1.sockets ≡ 5 ∷ 4 ∷ []
unfolding program thing.Server.Main.accept_loop thing.Server.Main.started thing.Sockets.close
    thing.Sockets.ssl_free thing.Sockets.released
held_sockets = refl
