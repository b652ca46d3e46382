-- ===== src/Tests/Threads.antt =====
-- The theorems on threads at concrete inputs.
use thing.Prelude.{
  ℕ, zero, suc, ◌≡◌, refl, Bool, true, false, some, List, [], ◌∷◌, ◌++◌, All, codes, if◌then◌else◌,
}
use thing.Files.{Tree, node_at, resolve, file}
use thing.Server.Account.Sessions.{IsNamed-closed}
use thing.Server.Connection.{handle_request}
use thing.Server.Threads.Handlers.{handle_request_calls}
use thing.Server.Threads.Sessions.{IsNamedThread, Reach-IsNamedThread}
use thing.Server.Threads.System.{Phase, waiting, working, moved}
use thing.Server.Threads.Uninterrupted.{settled, request_uninterrupted}
use thing.Server.Types.{no_session}
use thing.Tests.Accounts.{registered}
use thing.Tests.{home, demo, program, threads_program}

Reach-IsNamedThread_example : All IsNamedThread (
    settled
      (handle_request demo (codes "LOGIN bob pw") registered).0
      (handle_request demo (codes "LOGIN bob pw") registered).1.session
      []
    ∷ [])
unfolding program
Reach-IsNamedThread_example =
    Reach-IsNamedThread demo
      (request_uninterrupted demo [] [] [] (codes "LOGIN bob pw") registered refl)
      (IsNamed-closed registered.session refl, tt)

-- Two threads take turns: `true` is a turn of the first.
played : List Bool → Phase → Phase → Tree → (Phase × Phase) × Tree
played [] p q t = ((p, q), t)
played (first ∷ turns) p q t =
    if first
    then played turns (moved p t).0 q (moved p t).1
    else played turns p (moved q t).0 (moved q t).1

times : ℕ → Bool → List Bool
times zero b = []
times (suc n) b = b ∷ times n b

-- Two clients register one name. Both look whether the account is there before either makes it.
abbrev race : (Phase × Phase) × Tree
race =
    played (true ∷ false ∷ times 12 true ++ times 12 false)
      (working (handle_request_calls demo (codes "REGISTER bob secret") no_session) [])
      (working (handle_request_calls demo (codes "REGISTER bob pw") no_session) []) home

-- Both are told that they are registered, and the password is neither of the two.
both_register : race.0 ≡ (
  waiting no_session (codes "REGISTER_SUCCESS" ∷ []),
  waiting no_session (codes "REGISTER_SUCCESS" ∷ []),
)
unfolding program threads_program played times
both_register = refl

mixed_password :
    node_at (resolve (codes "/srv/ripple/accounts/bob/password")) race.1
    ≡ some (file (codes "pwcret"))
unfolding program threads_program played times
mixed_password = refl
