-- ===== src/Client/Served.antt =====
-- The client program at a server that runs this program: what becomes of what a user types.
use thing.Prelude.{
  ℕ, ◌≡◌, ◌≢◌, ◌<◌, ◌+◌, refl, ◌∙◌, Bool, true, Option, some, none, List, [], ◌∷◌, ◌++◌, Bytes, All,
  All-append, length, length-append, take, take_all, arith,
}
use thing.CString.{IsCstr, cstr, snprintf, is_empty}
use thing.CString.Laws.{cstr-IsCstr}
use thing.Format.{is_valid_username, is_valid_argument, is_valid_port}
use thing.Client.Console.{
  invalid_username, invalid_address, invalid_port, Shown, Connection, ok, M, Console, ◌>>=◌,
  stripped, prompt, prompt_on, ask, ask_on, ask_again,
}
use thing.Client.Handlers.{none_if_empty, query_account_details}
use thing.Server.Connection.{handle_request}
use thing.Server.Connection.Split.{split_command-join}
use thing.Server.Dispatch
use thing.Server.Dispatch.{ClientHandler, run_client}
use thing.Server.Dispatch.Tables.{name_of, client_dispatch_known}
use thing.Server.Types.{Server, State, text, Outcome, replied, faulted}

-- A server's thread at the other end: it writes the text of its answer, of which the client reads no
-- more than it asks for. The answer to a request is what one read of it gives, so this stands for
-- the connection as long as requests have at most 255 bytes; `Stream` has longer ones. A thread that
-- faults sends nothing.
abbrev pub answered : Outcome → ℕ → Option Bytes
answered (replied r) n = some (take n (text r))
answered faulted n = none

abbrev pub serving : Server → Connection State
serving srv = record {
  exchange = λ q n st. (answered (handle_request srv q st).0 n, (handle_request srv q st).1);
}

-- A typed line.
abbrev pub line : Bytes → Bytes
line s = s ++ (b'\n' ∷ [])

-- A text that a user can type and a line can hold: no NUL and no newline.
abbrev pub IsTyped : Bytes → Type 0
IsTyped = All (λ c. (0 < c) × (c ≢ b'\n'))

stripped-line : (s : Bytes) → IsTyped s → stripped (line s) ≡ s
unfolding stripped thing.CString.before cstr
stripped-line [] h = refl
stripped-line (x ∷ s) (h, k) = ground (arith, stripped-line s k)

record IsName (n : Bytes) : Type 0 where
  cstring : IsCstr n
  no_blank : All (λ c. c ≢ b' ') n

name_of-IsName : (h : ClientHandler) → IsName (name_of h)
name_of-IsName Dispatch.login = record { cstring = omega arith; no_blank = omega arith }
name_of-IsName Dispatch.register = record { cstring = omega arith; no_blank = omega arith }
name_of-IsName Dispatch.logout = record { cstring = omega arith; no_blank = omega arith }
name_of-IsName Dispatch.delete_account = record { cstring = omega arith; no_blank = omega arith }
name_of-IsName Dispatch.add_connection = record { cstring = omega arith; no_blank = omega arith }
name_of-IsName Dispatch.set_trustline = record { cstring = omega arith; no_blank = omega arith }

-- A request that one read takes whole is run by the handler of its command.
pub request_runs :
    (srv : Server) (h : ClientHandler) (args : Bytes) (st : State)
    → length (name_of h) + length args < 255
    → IsCstr args
    → handle_request srv (name_of h ++ (b' ' ∷ args)) st ≡ run_client srv h (some args) st
unfolding handle_request
request_runs srv h args st short c =
    let name = name_of-IsName h in
    let q : Bytes = name_of h ++ (b' ' ∷ args) in
    let size = length-append {0} (name_of h) (b' ' ∷ args) in
    let whole : cstr (take 255 q) ≡ q = rw (take_all 255 q (omega arith)) (
      cstr-IsCstr q
        (All-append (λ c. 0 < c) (name_of h) (b' ' ∷ args) name.cstring (omega arith, c))) in
    rw (whole, split_command-join (name_of h) args name.no_blank)
      (client_dispatch_known srv h (some args) st)

-- `fgets` once, at a line of typed text.
pub prompt-line :
    {S : Type 0} (s : Bytes) (rest : List Bytes) (c : Console S)
    → IsTyped s
    → c.input ≡ line s ∷ rest
    → prompt c ≡ ok (s, record c { input = rest })
unfolding prompt prompt_on
prompt-line s rest c t e = rw (e, stripped-line s t)

-- A loop that asks, at a line whose text is accepted.
pub ask-line :
    {S : Type 0} (valid : Bytes → Bool) (refusal : Shown) (s : Bytes) (rest : List Bytes)
    (c : Console S)
    → IsTyped s
    → valid s ≡ true
    → c.input ≡ line s ∷ rest
    → ask valid refusal c ≡ ok (s, record c { input = rest })
unfolding ask ask_on ask_again
ask-line valid refusal s rest c t v e = rw (e, stripped-line s t, v)

pub then_at :
    {S A B : Type 0} (m : M S A) (f : A → M S B) (c : Console S) (a : A) (d : Console S)
    → m c ≡ ok (a, d)
    → ◌>>=◌ m f c ≡ f a d
then_at m f c a d e = rw (e, ◌>>=◌)

pub details_lines :
    {S : Type 0} (u a p : Bytes) (rest : List Bytes) (c : Console S)
    → IsTyped u
    → is_valid_username u ≡ true
    → IsTyped a
    → is_valid_argument a ≡ true
    → IsTyped p
    → is_valid_port p ≡ true
    → c.input ≡ line u ∷ line a ∷ line p ∷ rest
    → query_account_details c
      ≡ ok (
        record {
          username = none_if_empty u;
          server_address = none_if_empty a;
          port = none_if_empty p;
        },
        record c { input = rest },
      )
unfolding query_account_details
details_lines u a p rest c tu vu ta va tp vp e =
    then_at (ask is_valid_username invalid_username) _ c u
      (record c { input = line a ∷ line p ∷ rest })
      (ask-line is_valid_username invalid_username u (line a ∷ line p ∷ rest) c tu vu e)
    ∙ then_at (ask is_valid_argument invalid_address) _
        (record c { input = line a ∷ line p ∷ rest }) a (record c { input = line p ∷ rest })
        (ask-line is_valid_argument invalid_address a (line p ∷ rest)
          (record c { input = line a ∷ line p ∷ rest }) ta va refl)
    ∙ then_at (ask is_valid_port invalid_port) _ (record c { input = line p ∷ rest }) p
        (record c { input = rest })
        (ask-line is_valid_port invalid_port p rest (record c { input = line p ∷ rest }) tp vp refl)
