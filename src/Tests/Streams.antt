-- ===== src/Tests/Streams.antt =====
-- A request that the server reads in two parts, at concrete inputs.
use thing.Prelude.{
  ℕ, zero, suc, ◌≡◌, ◌≤◌, ◌*◌, refl, List, [], ◌∷◌, ◌++◌, Bytes, All, codes, length, take, drop,
  arith, if◌then◌else◌,
}
use thing.CString.{is_empty}
use thing.Client.Console.{server_response}
use thing.Client.Dialogue.{interact_with_server}
use thing.Client.Session.{last}
use thing.Client.Served.{line}
use thing.Client.Stream.{Wire, stream, in_step, on_time, exchange-IsLate, IsLate}
use thing.Server.Connection.Reads.{Takes, serve_answers}
use thing.Server.Connection.{closed, serve}
use thing.Server.Types.{text}
use thing.Tests.Accounts.{start}
use thing.Tests.{program, client_program, demo}

-- Reads that take 255 bytes where there are so many.
cut : Bytes → List Bytes
cut q = if is_empty (drop 255 q) then q ∷ [] else take 255 q ∷ drop 255 q ∷ []

letters : ℕ → Bytes
letters zero = []
letters (suc n) = b'a' ∷ letters n

abbrev long_request : Bytes
unfolding letters
long_request = codes "LOGIN bob " ++ letters 250

long-Takes : Takes (cut long_request) long_request
unfolding cut is_empty letters
long-Takes = record { sizes = ((refl, omega arith), ((refl, omega arith), tt)); whole = refl }

long_fine : (serve demo (cut long_request) start).1 ≡ closed
unfolding program cut letters
long_fine = refl

serve_answers_example :
    (length (serve demo (cut long_request) start).0 ≡ length (cut long_request))
    × (length long_request ≤ 255 * length (serve demo (cut long_request) start).0)
serve_answers_example =
    serve_answers demo (cut long_request) long_request start long-Takes long_fine

long_answers :
    All (λ x. (length x ≤ 1023) × (length x ≤ 255)) (serve demo (cut long_request) start).0
unfolding program cut letters text
long_answers = ((omega arith, omega arith), ((omega arith, omega arith), tt))

exchange-IsLate_example : IsLate demo cut long_request (codes "LOGOUT") 1023 255 start
unfolding letters
exchange-IsLate_example =
    exchange-IsLate demo cut long_request (codes "LOGOUT") 1023 255 start (omega arith) long-Takes
      long_fine long_answers

-- A user logs in with a long password, and logs out: the answer shown for LOGOUT is that to the end of
-- the password.
long_dialogue :
    (last (
      interact_with_server (stream demo cut) (record {
        input =
            line (codes "LOGIN")
            ∷ line (codes "bob")
            ∷ line (letters 249)
            ∷ line (codes "LOGOUT")
            ∷ [];
        shown = [];
        server = in_step start;
      }))).shown
    ≡ server_response (codes "INVALID_COMMAND") ∷ server_response (codes "USERNAME_NOT_FOUND") ∷ []
unfolding program client_program cut letters thing.Client.Stream.stream thing.Client.Stream.serve_on
    thing.Client.Stream.next_answer
long_dialogue = refl
