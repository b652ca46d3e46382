-- ===== src/Tests/Strangers.antt =====
-- Threads that are strangers to an account, at concrete inputs.
use thing.Prelude.{
  false, none, length, ℕ, zero, suc, ◌≡◌, ◌≢◌, ◌<◌, refl, some, [], ◌∷◌, Bytes, codes, arith,
}
use thing.Files.{file, Tree, resolve, node_at}
use thing.Server.Account.RoundTrip.{IsPassword}
use thing.Database.Success.{path_text}
use thing.Server.Account.{login_user, rejects_username, credentials}
use thing.Server.Threads.Race.{Collides, register_calls-Collides}
use thing.Tests.Parts.{accounts-IsClear}
use thing.Server.Registry
use thing.Server.Registry.{meaning}
use thing.Server.Registry.Files.{password_file}
use thing.Server.Threads.Guarded.{Intact}
use thing.Server.Threads.Handlers.{handle_request_calls}
use thing.Server.Threads.Strangers.{Avoids, Reach-guards}
use thing.Server.Threads.System.{
  Phase, waiting, working, moved, System, reads, moves, turns, client_comes, Reach, here, next,
}
use thing.Server.Threads.Untouched.{Guards}
use thing.Server.Types.{no_session, login_success}
use thing.Tests.Accounts.{
  registered, home-IsTree, obliging-IsObliging, obliging-RunsRm, datadir_literal,
}
use thing.Tests.{program, threads_program, demo, home}

pw-IsPassword : IsPassword (codes "pw")
unfolding program
pw-IsPassword = record {
  cstring = omega arith;
  no_space = (refl, (refl, tt));
  bounded = omega arith;
}

bob-Guards : Guards demo (codes "bob") (codes "pw")
unfolding program
bob-Guards = record {
  kind = obliging-IsObliging;
  short = omega arith;
  literal = datadir_literal;
  rm = obliging-RunsRm;
  accepted = refl;
  name = omega arith;
  apart = λ e. cc;
  password = pw-IsPassword;
  exchange = λ l request t i. i;
}

bob-Intact : Intact (resolve demo.datadir) (codes "bob") (codes "pw") registered.tree
unfolding program
bob-Intact = record { home = refl; holds = refl }

abbrev one : Phase → Tree → System
one p t = record { files = t; threads = p ∷ [] }

-- A thread that takes a number of turns.
stepped : ℕ → Phase → Tree → Phase × Tree
stepped zero p t = (p, t)
stepped (suc n) p t = stepped n (moved p t).0 (moved p t).1

-- The steps to a system that avoid LOGIN of Bob.
abbrev Avoiding : System → System → Type 0
Avoiding x y = (r : Reach demo x y) × Avoids demo (codes "bob") (codes "pw") r

turn_by_turn :
    (n : ℕ) (p : Phase) (t : Tree) (x : System)
    → Avoiding x (one p t)
    → Avoiding x (one (stepped n p t).0 (stepped n p t).1)
unfolding stepped
turn_by_turn zero p t x (r, a) = (r, a)
turn_by_turn (suc n) p t x (r, a) =
    turn_by_turn n (moved p t).0 (moved p t).1 x
      (next r (turns [] [] (moves p t (moved p t).0 (moved p t).1 refl)), (a, tt))

abbrev guess : Bytes
guess = codes "LOGIN bob guess"

other_meaning : meaning guess ≢ some (Registry.login (codes "bob") (codes "pw"))
unfolding program meaning Registry.asks Registry.request_of
other_meaning = λ e. cc

guessing : Phase
guessing = working (handle_request_calls demo guess no_session) []

-- A client comes and guesses.
guess_comes :
    Avoiding (record { files = registered.tree; threads = [] }) (one guessing registered.tree)
unfolding guessing program
guess_comes = (
  next (next here (client_comes registered.tree []))
      (turns [] [] (reads guess no_session [] registered.tree refl)),
  ((tt, tt), other_meaning),
)

guessed :
    Avoiding
      (record { files = registered.tree; threads = [] })
      (one (stepped 3 guessing registered.tree).0 (stepped 3 guessing registered.tree).1)
guessed = turn_by_turn 3 guessing registered.tree _ guess_comes

-- The thread has its answer by then.
guess_fails :
    (stepped 3 guessing registered.tree).0 ≡ waiting no_session (codes "PASSWORD_INCORRECT" ∷ [])
unfolding program threads_program stepped guessing
guess_fails = refl

Reach-guards_example :
    (node_at
        (password_file (resolve demo.datadir) (codes "bob"))
        (stepped 3 guessing registered.tree).1
      ≡ some (file (codes "pw")))
    × (login_user demo.os demo.datadir
          (codes "bob")
          (codes "pw")
          (stepped 3 guessing registered.tree).1
        ≡ login_success)
Reach-guards_example =
    Reach-guards demo (codes "bob") (codes "pw") bob-Guards bob-Intact guessed.0 guessed.1

bob_accepted : rejects_username (codes "bob") ≡ false
unfolding program
bob_accepted = refl

bob_new : node_at (codes "bob" ∷ codes "accounts" ∷ codes "ripple" ∷ codes "srv" ∷ []) home ≡ none
unfolding program
bob_new = refl

datadir_text : demo.datadir ≡ path_text (codes "ripple" ∷ codes "srv" ∷ [])
unfolding program
datadir_text = refl

short_text : length (path_text (codes "ripple" ∷ codes "srv" ∷ [])) < 256
unfolding program
short_text = omega arith

scanned_secret : credentials (codes "bob secret") ≡ (codes "bob", codes "secret")
unfolding program
scanned_secret = refl

scanned_pw : credentials (codes "bob pw") ≡ (codes "bob", codes "pw")
unfolding program
scanned_pw = refl

register_calls-Collides_example :
    Collides demo
      (codes "ripple" ∷ codes "srv" ∷ [])
      (codes "bob")
      (codes "secret")
      (codes "pw")
      (codes "bob secret")
      (codes "bob pw")
      no_session
      no_session
      home
register_calls-Collides_example =
    register_calls-Collides demo obliging-IsObliging (codes "ripple" ∷ codes "srv" ∷ [])
      datadir_text short_text (codes "bob") (omega arith) bob_accepted home home-IsTree
      accounts-IsClear bob_new (codes "secret") (codes "pw") no_session no_session
      (codes "bob secret") (codes "bob pw") scanned_secret scanned_pw
