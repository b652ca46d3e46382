-- ===== src/Tests/Client.antt =====
-- The theorems on the client program at concrete inputs.
use thing.Prelude.{◌≡◌, refl, List, [], ◌∷◌, Bytes, All, codes, arith}
use thing.Scan.Words.{IsWord}
use thing.Client.Console.{Console, server_response, unknown_command, no_response, ok}
use thing.Client.Dialogue.{interact_with_server}
use thing.Client.Handlers.{
  none_if_empty, show_or, handle_login, handle_set_trustline, handle_add_connection,
}
use thing.Client.Received.{login_received}
use thing.Client.Requests.{IsRequest}
use thing.Client.Served.{answered, serving, line}
use thing.Client.Session.{interact_sends, recorded, last}
use thing.Client.Stdin.{lines_of}
use thing.Client.Trustlines.{set_trustline_served, add_connection_default_port}
use thing.Client.Typed.{IsBlankFree}
use thing.Server.Account.{login_user, logged_in}
use thing.Server.Trust.{request_trustline, or_none}
use thing.Server.Types.{Outcome, State, text, server_default_port}
use thing.Tests.Accounts.{start, registered, logged}
use thing.Tests.{demo, program, client_program}

abbrev at_server : State → List Bytes → Console State
at_server st lines = record { input = lines; shown = []; server = st }

-- A user registers, logs in, mistypes a command and leaves.
abbrev typed : List Bytes
typed =
    line (codes "REGISTER")
    ∷ line (codes "bob")
    ∷ line (codes "pw")
    ∷ line (codes "LOGIN")
    ∷ line (codes "bob")
    ∷ line (codes "pw")
    ∷ line (codes "HELLO")
    ∷ line (codes "EXIT")
    ∷ line (codes "LOGOUT")
    ∷ []

dialogue :
    (last (interact_with_server (serving demo) (at_server start typed))).shown
    ≡ unknown_command
      ∷ server_response (codes "LOGIN_SUCCESS")
      ∷ server_response (codes "REGISTER_SUCCESS")
      ∷ []
unfolding program client_program
dialogue = refl

-- The input of the dialogue as it is typed.
input_lines :
    lines_of (codes "LOGIN\nbob\npw") ≡ line (codes "LOGIN") ∷ line (codes "bob") ∷ codes "pw" ∷ []
unfolding client_program
input_lines = refl

pw-IsWord : IsWord (codes "pw")
unfolding program
pw-IsWord = record { no_space = ground arith; nonempty = λ e. cc }

org-IsBlankFree : IsBlankFree (codes "x.org")
unfolding program
org-IsBlankFree = record { no_space = ground arith; cstring = omega arith }

abbrev login_lines : Console State
login_lines = at_server registered (line (codes "bob") ∷ line (codes "pw") ∷ [])

login_received_example :
    handle_login (serving demo) login_lines
    ≡ ok (
      tt,
      record {
        input = [];
        shown =
            server_response
              (text (login_user demo.os demo.datadir (codes "bob") (codes "pw") registered.tree))
            ∷ [];
        server = record registered {
          session =
              logged_in
                (login_user demo.os demo.datadir (codes "bob") (codes "pw") registered.tree)
                (codes "bob")
                registered.session;
        };
      },
    )
unfolding program
login_received_example =
    login_received demo (codes "bob") (codes "pw") [] login_lines refl (λ e. cc) pw-IsWord
      (omega arith) (omega arith) refl

abbrev trustline_lines : Console State
trustline_lines =
    at_server logged
      (line (codes "ann") ∷ line (codes "x.org") ∷ line (codes "7") ∷ line (codes "10") ∷ [])

abbrev requested : Outcome × State
requested =
    request_trustline demo (none_if_empty (codes "ann"))
      (or_none (none_if_empty (codes "x.org")) (codes "localhost"))
      (or_none (none_if_empty (codes "7")) server_default_port) (none_if_empty (codes "10")) logged

set_trustline_served_example :
    handle_set_trustline (serving demo) trustline_lines
    ≡ show_or no_response
        (answered requested.0 1023)
        (record trustline_lines { input = []; server = requested.1 })
unfolding program
set_trustline_served_example =
    set_trustline_served demo trustline_lines refl (codes "ann") (codes "x.org") refl
      org-IsBlankFree (codes "7") (codes "10") [] refl (omega arith) refl (omega arith) refl

abbrev connection_lines : Console State
connection_lines = at_server logged (line (codes "ann") ∷ line (codes "x.org") ∷ line [] ∷ [])

add_connection_default_port_example :
    handle_add_connection (serving demo) connection_lines
    ≡ ok (
      tt,
      record connection_lines { input = []; shown = server_response (codes "INVALID_PORT") ∷ [] },
    )
unfolding program
add_connection_default_port_example =
    add_connection_default_port demo connection_lines refl (codes "ann") (codes "x.org") refl
      org-IsBlankFree [] (omega arith) refl

interact_sends_example :
    All IsRequest
      (last (
        interact_with_server
          (recorded (serving demo))
          (record { input = typed; shown = []; server = (start, []) }))).server.1
interact_sends_example = interact_sends (serving demo) typed start
