-- ===== src/Client/Launch.antt =====
-- src/client/main.c: how the client program comes to its dialogue, and what it holds in the end.
pub mod Ends
use thing.Prelude.{
  ℕ, zero, suc, ◌+◌, ◌-◌, ◌^◌, ◌%◌, Bool, true, false, not, Option, none, some, List, [], ◌∷◌, ◌++◌,
  Bytes, codes, ltb, if◌then◌else◌,
}
use Prim.Native.Nat.{◌/◌}
use thing.CString.{is_empty, snprintf}
use thing.Client.Console.{Connection, Console, Result, ok, faulted, endless}
use thing.Client.Dialogue.{interact_with_server}
use thing.Contexts.{Context, Library, create_ssl_client_context, configure_ssl_client_context}
use thing.Sockets.{Handles, Address, open_connection, setup_ssl_client_connection, close, ssl_free}
use thing.Client.Address.{parse_address_and_port}

-- CLIENT_DEFAULT_PORT
abbrev pub client_default_port : ℕ
client_default_port = 2012

-- The arguments of the program, what OpenSSL, the resolver and the server give, and the dialogue's
-- connection and console; `acknowledgment` is what the first `SSL_read` gives.
pub record Launch (S : Type 0) : Type 0 where
  pub arguments : List Bytes
  pub library : Library
  pub resolves : Bytes → Bytes → Option (List Address)
  pub sends_header : Bool
  pub ssl : Option ℕ
  pub shakes_hands : Bool
  pub acknowledgment : Option Bytes
  pub server : Connection S
  pub console : Console S

-- `(argc == 2) ? argv[1] : "localhost"`
unfoldable pub url_of : List Bytes → Bytes
url_of (url ∷ []) = url
url_of _ = codes "localhost"

-- EXIT_FAILURE; or, behind a dialogue over a connection of that context, 0; or the dialogue faults or
-- never ends, so that `main` does not come behind it.
pub data Exit (S : Type 0) : Type 0 where
  failure : Exit S
  talked : Context → Console S → Exit S
  dialogue_faults dialogue_hangs : Context → Console S → Exit S

unfoldable pub is_read : Option Bytes → Bool
is_read none = false
is_read (some s) = not (is_empty s)

-- What stands behind `interact_with_server`.
unfoldable pub after_dialogue :
    {S : Type 0} → Context → ℕ → ℕ → Result S (Unit {0}) → Handles → Exit S × Handles
after_dialogue ctx sock ssl (ok (_, c)) h = (talked ctx c, close sock (ssl_free ssl h))
after_dialogue ctx sock ssl (faulted c) h = (dialogue_faults ctx c, h)
after_dialogue ctx sock ssl (endless c) h = (dialogue_hangs ctx c, h)

-- The digits of a number that has at most `fuel` of them.
unfoldable pub digits_of : ℕ → ℕ → Bytes
digits_of zero n = []
digits_of (suc fuel) n =
    let front = digits_of fuel (n / 10) in (if ltb n 10 then [] else front) ++ (n % 10 + b'0') ∷ []

-- `snprintf(port_str, 6, "%d", port)`, of an `int` that is given by its 32 bits.
unfoldable pub port_text : ℕ → Bytes
port_text port =
    snprintf 6
      (if ltb port (2 ^ 31) then digits_of 10 port else b'-' ∷ digits_of 10 (2 ^ 32 - port))

module _ {S : Type 0} (l : Launch S) where
  unfoldable pub talk : Context → ℕ → (Option ℕ × Handles) → Exit S × Handles
  talk ctx sock (none, h) = (failure, close sock h)
  talk ctx sock (some ssl, h) =
      if is_read l.acknowledgment
      then after_dialogue ctx sock ssl (interact_with_server l.server l.console) h
      else (failure, h)

  unfoldable pub send_header : Context → (Option ℕ × Handles) → Exit S × Handles
  send_header ctx (none, h) = (failure, h)
  send_header ctx (some sock, h) =
      if l.sends_header
      then talk ctx sock (setup_ssl_client_connection l.ssl l.shakes_hands h)
      else (failure, close sock h)

  unfoldable pub connect_to : Context → (Option Bytes × ℕ) → Handles → Exit S × Handles
  connect_to ctx (none, port) h = (failure, h)
  connect_to ctx (some hostname, port) h =
      send_header ctx (open_connection (l.resolves hostname (port_text port)) h)

  unfoldable pub configured_main : Option Context → Handles → Exit S × Handles
  configured_main none h = (failure, h)
  configured_main (some ctx) h =
      connect_to ctx (parse_address_and_port (url_of l.arguments) client_default_port) h

  unfoldable pub main_with : Option Context → Handles → Exit S × Handles
  main_with none h = (failure, h)
  main_with (some ctx) h = configured_main (configure_ssl_client_context l.library ctx) h

  unfoldable pub client_main : Handles → Exit S × Handles
  client_main h = main_with (create_ssl_client_context l.library) h
