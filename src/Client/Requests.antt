-- ===== src/Client/Requests.antt =====
-- What every handler of the client keeps, and the requests that it may send.
use thing.Prelude.{ℕ, ◌≡◌, refl, Bool, Option, none, some, [], ◌∷◌, Bytes, codes, take}
use thing.CString.{is_empty, cstr, snprintf}
use thing.Commands.{find_command_handler}
use thing.Format.{is_valid_username, is_valid_argument, is_valid_port, is_number}
use thing.Server.Connection.{split_command}
use thing.Server.Dispatch
use thing.Server.Dispatch.{ClientHandler}
use thing.Server.Dispatch.Tables.{name_of}
use thing.Client.Console.{
  Shown, server_response, connection_closed, ssl_read_error, no_response, no_server_response,
  invalid_characters, invalid_username, invalid_address, invalid_port, invalid_size,
  unknown_command, prompt, ask, exchanged, Connection, M, Console, ◌>>=◌, show,
}
use thing.Client.Handlers.{
  login_request, delete_request, none_if_empty, Details, add_connection_request,
  set_trustline_request, show_unchecked, show_checked, show_or, ask_password,
  handle_login_and_register, handle_login, handle_register, handle_logout, handle_delete_account,
  query_account_details, handle_add_connection, handle_set_trustline,
}
use thing.Client.Dialogue.{
  Handler, login, register, logout, delete_account, add_connection, set_trustline, run_handler,
  run_or_refuse, dispatch_command, commands,
}
use thing.Client.Keeps.{
  Keeps, IsStepwise, Keeps-bind, Keeps-show, Keeps-prompt, Keeps-ask, Keeps-exchanged, Keeps-if,
}

-- What the server reads of a request, 255 bytes of it, is a command of the protocol.
pub record IsRequest (q : Bytes) : Type 0 where
  pub handler : ClientHandler
  pub named : (split_command (cstr (take 255 q))).0 ≡ name_of handler

login_request-IsRequest : (u p : Bytes) → IsRequest (login_request (codes "LOGIN") u p)
unfolding login_request
login_request-IsRequest u p = record {
  handler = Dispatch.login;
  named = unfold split_command cstr snprintf thing.CString.before in refl;
}

register-IsRequest : (u p : Bytes) → IsRequest (login_request (codes "REGISTER") u p)
unfolding login_request
register-IsRequest u p = record {
  handler = Dispatch.register;
  named = unfold split_command cstr snprintf thing.CString.before in refl;
}

logout-IsRequest : IsRequest (codes "LOGOUT")
logout-IsRequest = record {
  handler = Dispatch.logout;
  named = unfold split_command cstr snprintf thing.CString.before in refl;
}

delete_request-IsRequest : (u : Bytes) → IsRequest (delete_request u)
unfolding delete_request
delete_request-IsRequest u = record {
  handler = Dispatch.delete_account;
  named = unfold split_command cstr snprintf thing.CString.before in refl;
}

add_connection_request-IsRequest : (d : Details) → IsRequest (add_connection_request d)
unfolding add_connection_request
add_connection_request-IsRequest d = record {
  handler = Dispatch.add_connection;
  named = unfold split_command cstr snprintf thing.CString.before in refl;
}

set_trustline_request-IsRequest :
    (d : Details) (size : Bytes) → IsRequest (set_trustline_request d size)
unfolding set_trustline_request
set_trustline_request-IsRequest d size = record {
  handler = Dispatch.set_trustline;
  named = unfold split_command cstr snprintf thing.CString.before in refl;
}

module _ {S : Type 0} (conn : Connection S) (R : Console S → Console S → Type 0)
    (w : IsStepwise conn IsRequest R) where
  show_unchecked-Keeps : (o : Option Bytes) → Keeps R (show_unchecked {S = S} o)
  unfolding show_unchecked
  show_unchecked-Keeps none c = w.refl_at c
  show_unchecked-Keeps (some r) c = Keeps-show conn IsRequest R w (server_response (cstr r)) c

  show_checked-Keeps : (o : Option Bytes) → Keeps R (show_checked {S = S} o)
  unfolding show_checked is_empty show
  show_checked-Keeps none = Keeps-show conn IsRequest R w ssl_read_error
  show_checked-Keeps (some []) = Keeps-show conn IsRequest R w connection_closed
  show_checked-Keeps (some (b ∷ r)) = Keeps-show conn IsRequest R w (server_response (cstr (b ∷ r)))

  show_or-Keeps : (s : Shown) (o : Option Bytes) → Keeps R (show_or {S = S} s o)
  unfolding show_or is_empty show
  show_or-Keeps s none = Keeps-show conn IsRequest R w s
  show_or-Keeps s (some []) = Keeps-show conn IsRequest R w s
  show_or-Keeps s (some (b ∷ r)) = Keeps-show conn IsRequest R w (server_response (cstr (b ∷ r)))

  prompt-Keeps :
      {B : Type 0} (after : Bytes → M S B)
      → ((l : Bytes) → Keeps R (after l))
      → Keeps R (prompt >>= after)
  prompt-Keeps after k =
      Keeps-bind conn IsRequest R w prompt after (Keeps-prompt conn IsRequest R w) k

  ask-Keeps :
      {B : Type 0} (valid : Bytes → Bool) (refusal : Shown) (after : Bytes → M S B)
      → ((l : Bytes) → Keeps R (after l))
      → Keeps R (ask valid refusal >>= after)
  ask-Keeps valid refusal after k =
      Keeps-bind conn IsRequest R w (ask valid refusal) after
        (Keeps-ask conn IsRequest R w valid refusal) k

  exchange-Keeps :
      (q : Bytes) (n : ℕ) (after : Option Bytes → M S (Unit {0}))
      → IsRequest q
      → ((o : Option Bytes) → Keeps R (after o))
      → Keeps R (exchanged conn q n >>= after)
  exchange-Keeps q n after h k =
      Keeps-bind conn IsRequest R w (exchanged conn q n) after
        (Keeps-exchanged conn IsRequest R w q n h) k

  login_or_register-Keeps :
      (command : Bytes)
      → ((u p : Bytes) → IsRequest (login_request command u p))
      → Keeps R (handle_login_and_register conn command)
  unfolding handle_login_and_register ask_password
  login_or_register-Keeps command q = prompt-Keeps _ λ u.
      Keeps-if conn IsRequest R w (is_valid_username u) _ _
        (prompt-Keeps _ λ p.
          exchange-Keeps (login_request command u p) 1023 show_unchecked (q u p)
            show_unchecked-Keeps)
        (Keeps-show conn IsRequest R w invalid_characters)

  delete_account-Keeps : Keeps R (handle_delete_account conn)
  unfolding handle_delete_account
  delete_account-Keeps = prompt-Keeps _ λ u.
      exchange-Keeps (delete_request u) 255 show_checked (delete_request-IsRequest u)
        show_checked-Keeps

  details-Keeps :
      (after : Details → M S (Unit {0}))
      → ((d : Details) → Keeps R (after d))
      → Keeps R (query_account_details >>= after)
  unfolding query_account_details
  details-Keeps after k =
      Keeps-bind conn IsRequest R w query_account_details after
        (ask-Keeps is_valid_username invalid_username _ λ u.
          ask-Keeps is_valid_argument invalid_address _
            λ a. ask-Keeps is_valid_port invalid_port _ λ p. w.refl_at)
        k

  add_connection-Keeps : Keeps R (handle_add_connection conn)
  unfolding handle_add_connection
  add_connection-Keeps = details-Keeps _ λ d.
      exchange-Keeps (add_connection_request d) 255 (show_or no_server_response)
        (add_connection_request-IsRequest d) (show_or-Keeps no_server_response)

  set_trustline-Keeps : Keeps R (handle_set_trustline conn)
  unfolding handle_set_trustline
  set_trustline-Keeps = details-Keeps _ λ d. ask-Keeps is_number invalid_size _ λ s.
      exchange-Keeps (set_trustline_request d (none_if_empty s)) 1023 (show_or no_response)
        (set_trustline_request-IsRequest d (none_if_empty s)) (show_or-Keeps no_response)

  run_handler-Keeps : (h : Handler) → Keeps R (run_handler conn h)
  unfolding run_handler handle_login handle_register handle_logout
  run_handler-Keeps login = login_or_register-Keeps (codes "LOGIN") login_request-IsRequest
  run_handler-Keeps register = login_or_register-Keeps (codes "REGISTER") register-IsRequest
  run_handler-Keeps logout =
      exchange-Keeps (codes "LOGOUT") 255 show_checked logout-IsRequest show_checked-Keeps
  run_handler-Keeps delete_account = delete_account-Keeps
  run_handler-Keeps add_connection = add_connection-Keeps
  run_handler-Keeps set_trustline = set_trustline-Keeps

  pub dispatch_command-Keeps : (cmd : Bytes) → Keeps R (dispatch_command conn cmd)
  unfolding dispatch_command
  dispatch_command-Keeps cmd = found (find_command_handler cmd commands)
    where
      found : (o : Option Handler) → Keeps R (run_or_refuse conn o)
      found none = unfold run_or_refuse in Keeps-show conn IsRequest R w unknown_command
      found (some h) = unfold run_or_refuse in run_handler-Keeps h
