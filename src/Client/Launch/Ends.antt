-- ===== src/Client/Launch/Ends.antt =====
-- What the client program holds when `main` ends.
use thing.Prelude.{
  ℕ, ◌≡◌, ◌∙◌, ◌⊎◌, inl, inr, refl, true, false, Option, none, some, List, ◌∷◌, Bytes, Bool-cases,
  Option-cases,
}
use thing.Contexts.{
  Context, set_verify, with_paths, create_ssl_client_context, configure_ssl_client_context,
}
use thing.Sockets.{Handles, Address, open_connection, setup_ssl_client_connection, close, ssl_free}
use thing.Sockets.Outgoing.{first_connected, create_and_connect_socket_lem, released_head}
use thing.Client.Address.{parse_address_and_port}
use thing.Client.Console.{Console, Result, ok, faulted, endless}
use thing.Client.Dialogue.{interact_with_server}
use thing.Client.Launch.{
  Launch, failure, talked, dialogue_faults, dialogue_hangs, after_dialogue, port_text, url_of,
  is_read, talk, send_header, connect_to, configured_main, main_with, client_main,
  client_default_port,
}

-- A run that gets as far as the first read: the host and the port that the address names, the socket
-- of the first address that connects, and the SSL object.
pub record IsConnected {S : Type 0} (l : Launch S) (sock ssl : ℕ) : Type 0 where
  pub makes_client : l.library.makes_client ≡ true
  pub sets_paths : l.library.sets_paths ≡ true
  pub host : Bytes
  pub port : ℕ
  pub parsed : parse_address_and_port (url_of l.arguments) client_default_port ≡ (some host, port)
  pub found : List Address
  pub resolved : l.resolves host (port_text port) ≡ some found
  pub connected : first_connected found ≡ some sock
  pub sent : l.sends_header ≡ true
  pub object : l.ssl ≡ some ssl
  pub secured : l.shakes_hands ≡ true

-- The context of the client: it verifies the server by the default paths, and shows no certificate.
abbrev pub verifying : Context
verifying = record {
  verifies = true;
  default_paths = true;
  certificate = false;
  private_key = false;
}

-- The ways in which `main` ends, or does not.
pub data Outcome {S : Type 0} (l : Launch S) (h : Handles) : Type 0 where
  not_connected : client_main l h ≡ (failure, h) → Outcome l h
  not_acknowledged :
      (sock ssl : ℕ)
      → IsConnected l sock ssl
      → is_read l.acknowledgment ≡ false
      → client_main l h ≡ (failure, record { sockets = sock ∷ h.sockets; ssls = ssl ∷ h.ssls })
      → Outcome l h
  finished :
      (sock ssl : ℕ) (last : Console S)
      → IsConnected l sock ssl
      → is_read l.acknowledgment ≡ true
      → interact_with_server l.server l.console ≡ ok (tt, last)
      → client_main l h ≡ (talked verifying last, h)
      → Outcome l h
  undefined :
      (sock ssl : ℕ) (last : Console S)
      → IsConnected l sock ssl
      → is_read l.acknowledgment ≡ true
      → interact_with_server l.server l.console ≡ faulted last
      → client_main l h ≡ (
        dialogue_faults verifying last,
        record { sockets = sock ∷ h.sockets; ssls = ssl ∷ h.ssls },
      )
      → Outcome l h
  hung :
      (sock ssl : ℕ) (last : Console S)
      → IsConnected l sock ssl
      → is_read l.acknowledgment ≡ true
      → interact_with_server l.server l.console ≡ endless last
      → client_main l h ≡ (
        dialogue_hangs verifying last,
        record { sockets = sock ∷ h.sockets; ssls = ssl ∷ h.ssls },
      )
      → Outcome l h

Result-cases :
    (r : Option Bytes × ℕ)
    → ((n : ℕ) × (r ≡ (none, n))) ⊎ ((h : Bytes) × (n : ℕ) × (r ≡ (some h, n)))
Result-cases (none, n) = inl (n, refl)
Result-cases (some h, n) = inr (h, n, refl)

-- A run that comes to the dialogue ends as the dialogue does.
from_dialogue :
    {S : Type 0} (l : Launch S) (h : Handles) (sock ssl : ℕ)
    → IsConnected l sock ssl
    → is_read l.acknowledgment ≡ true
    → client_main l h
      ≡ after_dialogue verifying sock ssl
          (interact_with_server l.server l.console)
          (record { sockets = sock ∷ h.sockets; ssls = ssl ∷ h.ssls })
    → Outcome l h
unfolding after_dialogue close ssl_free
from_dialogue {S} l h sock ssl there a e = by_result (interact_with_server l.server l.console) refl
  where
    by_result :
        (r : Result S (Unit {0})) → interact_with_server l.server l.console ≡ r → Outcome l h
    by_result (ok (_, last)) d =
        finished sock ssl last there a d
          (e ∙ rw (d, released_head sock h.sockets, released_head ssl h.ssls))
    by_result (faulted last) d = undefined sock ssl last there a d (e ∙ rw d)
    by_result (endless last) d = hung sock ssl last there a d (e ∙ rw d)

-- `main` of the client program fails, and holds what it held before; or the server could not be
-- heard, and it exits with a socket and an SSL object held; or it was connected, over a context that
-- verifies the server, heard it, and runs the dialogue. If that comes to its end, `main` holds what
-- it held before; if it faults or never ends, as it does on the same connection and the same
-- console by itself, the socket and the SSL object are held.
pub client_main_lem : {S : Type 0} (l : Launch S) (h : Handles) → Outcome l h
unfolding client_main main_with configured_main create_ssl_client_context
    configure_ssl_client_context set_verify with_paths connect_to send_header talk open_connection
    setup_ssl_client_connection close ssl_free
client_main_lem l h = elim (Bool-cases l.library.makes_client) [
  | inr e ↦ not_connected (rw e)
  | inl e ↦ elim (Bool-cases l.library.sets_paths) [
    | inr v ↦ not_connected (rw (e, v))
    | inl v ↦
        elim (Result-cases (parse_address_and_port (url_of l.arguments) client_default_port)) [
          | inl (n, p) ↦ not_connected (rw (e, v, p))
          | inr (host, port, p) ↦ elim (Option-cases (l.resolves host (port_text port))) [
            | inl r ↦ not_connected (rw (e, v, p, r))
            | inr (res, r) ↦ elim (Option-cases (first_connected res)) [
              | inl f ↦ not_connected (rw (e, v, p, r, create_and_connect_socket_lem res h, f))
              | inr (sock, f) ↦ elim (Bool-cases l.sends_header) [
                | inr s ↦ not_connected (
                    rw (
                      e,
                      v,
                      p,
                      r,
                      create_and_connect_socket_lem res h,
                      f,
                      s,
                      released_head sock h.sockets,
                    ))
                | inl s ↦ elim (Option-cases l.ssl) [
                  | inl o ↦ not_connected (
                      rw (
                        e,
                        v,
                        p,
                        r,
                        create_and_connect_socket_lem res h,
                        f,
                        s,
                        o,
                        released_head sock h.sockets,
                      ))
                  | inr (ssl, o) ↦ elim (Bool-cases l.shakes_hands) [
                    | inr k ↦ not_connected (
                        rw (
                          e,
                          v,
                          p,
                          r,
                          create_and_connect_socket_lem res h,
                          f,
                          s,
                          o,
                          k,
                          released_head sock h.sockets,
                          released_head ssl h.ssls,
                        ))
                    | inl k ↦
                        let there : IsConnected l sock ssl = record {
                          makes_client = e;
                          sets_paths = v;
                          host = host;
                          port = port;
                          parsed = p;
                          found = res;
                          resolved = r;
                          connected = f;
                          sent = s;
                          object = o;
                          secured = k;
                        } in
                        elim (Bool-cases (is_read l.acknowledgment)) [
                          | inl a ↦
                              from_dialogue l h sock ssl there a (
                                rw (e, v, p, r, create_and_connect_socket_lem res h, f, s, o, k, a))
                          | inr a ↦
                              not_acknowledged sock ssl there a (
                                rw (e, v, p, r, create_and_connect_socket_lem res h, f, s, o, k, a))
                        ]
                  ]
                ]
              ]
            ]
          ]
        ]
  ]
]
