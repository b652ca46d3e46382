-- ===== src/Tests/Accounts.antt =====
-- The theorems on accounts and sessions at concrete inputs.
use thing.Prelude.{
  ◌≡◌, refl, true, false, none, some, [], ◌∷◌, Bytes, codes, take, arith, if◌then◌else◌,
}
use thing.Files.{FilePath, Node, directory, Tree, parent, resolve, node_at, same_path}
use thing.Files.Laws.{IsTree}
use thing.Files.Resolve.{same_path_iff}
use thing.Files.Writes.{IsObliging}
use thing.Server.Account.Delete.{
  is_under, IsLiteralPath, RunsRm, delete_account_confined, delete_account_deletes,
}
use thing.Server.Account.RoundTrip.{register-login}
use thing.Server.Account.Sessions.{IsNamed}
use thing.Server.Account.{
  client_handle_register, client_handle_login, client_handle_delete_account, credentials,
  login_user,
}
use thing.Server.Dispatch
use thing.Server.Dispatch.{run_client}
use thing.Server.Sessions.{run_client_logs_in}
use thing.Server.Types.{
  no_session, State, replied, login_success, register_success, user_deleted_successfully,
}
use thing.Tests.{prune, remove_tree, obliging, home, demo, program}

pub obliging-IsObliging : IsObliging obliging
obliging-IsObliging = record { grants = λ c p t. refl; writes = λ p s t. refl }

pub home-IsTree : IsTree home
home-IsTree = record { inside = no_entry }
  where
    no_entry :
        (q : FilePath) (n : Node)
        → node_at q home ≡ some n
        → node_at (parent q) home ≡ some directory
    no_entry [] n e = unfold node_at in refl
    no_entry (m ∷ q) n e = absurd (nothing m q n e)
      where
        nothing : (m : Bytes) (q : FilePath) (n : Node) → node_at (m ∷ q) home ≡ some n → ⊥
        nothing m q n = unfold node_at in λ h. cc

-- Before and after the registration of a user.
abbrev pub start : State
start = record { session = no_session; tree = home }

abbrev bob : Bytes
bob = codes "bob pw"

abbrev pub registered : State
registered = (client_handle_register demo (some bob) start).1

abbrev pub logged : State
logged = record {
  session = record { username = codes "bob"; authenticated = true };
  tree = registered.tree;
}

bob_registers : (client_handle_register demo (some bob) start).0 ≡ replied register_success
unfolding program
bob_registers = refl

register-login_example : client_handle_login demo (some bob) registered ≡ (
  replied login_success,
  record {
    session = record { username = (credentials bob).0; authenticated = true };
    tree = registered.tree;
  },
)
register-login_example =
    register-login demo bob start obliging-IsObliging (omega arith) home-IsTree (omega arith)
      bob_registers

bob_logs_in : (run_client demo Dispatch.login (some bob) registered).1.session.authenticated ≡ true
unfolding program
bob_logs_in = refl

registered_closed : registered.session.authenticated ≡ false
unfolding program
registered_closed = refl

run_client_logs_in_example :
    (Dispatch.login ≡ Dispatch.login)
    × (a : Bytes) × (some bob ≡ some a)
    × (login_user obliging demo.datadir (credentials a).0 (credentials a).1 registered.tree
        ≡ login_success)
    × ((run_client demo Dispatch.login (some bob) registered).1.session.username
        ≡ take 255 (credentials a).0)
run_client_logs_in_example =
    run_client_logs_in demo Dispatch.login (some bob) registered registered_closed bob_logs_in

-- The removal of a directory.
node_at-prune :
    (m : Bytes) (q p : FilePath) (t : Tree)
    → node_at (m ∷ q) (prune p t) ≡ (if is_under p (m ∷ q) then none else node_at (m ∷ q) t)
unfolding node_at prune
node_at-prune m q p [] = ground arith
node_at-prune m q p ((r, n) ∷ t) = ground (arith, node_at-prune m q p t, same_path_iff (m ∷ q) r)

removes_inside :
    (p q : FilePath) (t : Tree)
    → (remove_tree p t).0 ≡ true
    → is_under p q ≡ true
    → node_at q (remove_tree p t).1 ≡ none
unfolding remove_tree is_under same_path
removes_inside [] q t h u = cc
removes_inside (n ∷ p) [] t h u = cc
removes_inside (n ∷ p) (m ∷ q) t h u = rw (node_at-prune m q (n ∷ p) t, u)

keeps_outside :
    (p q : FilePath) (t : Tree) → is_under p q ≡ false → node_at q (remove_tree p t).1 ≡ node_at q t
unfolding remove_tree
keeps_outside [] q t u = refl
keeps_outside (n ∷ p) [] t u = unfold node_at in refl
keeps_outside (n ∷ p) (m ∷ q) t u = rw (node_at-prune m q (n ∷ p) t, u)

pub obliging-RunsRm : RunsRm obliging
obliging-RunsRm = record {
  outside = λ path t q lit u. keeps_outside (resolve path) q t u;
  inside = λ path t q lit done u. removes_inside (resolve path) q t done u;
}

pub datadir_literal : IsLiteralPath demo.datadir
datadir_literal = record { literal = omega arith; rest = codes "srv/ripple"; absolute = refl }

bob-IsNamed : IsNamed logged.session
unfolding program
bob-IsNamed = record { valid = λ h. refl; nonempty = λ h. cc; bounded = λ h. omega arith }

abbrev bob_dir : FilePath
bob_dir = codes "bob" ∷ codes "accounts" ∷ resolve demo.datadir

delete_account_confined_example :
    node_at (codes "srv" ∷ []) (client_handle_delete_account demo none logged).1.tree
    ≡ node_at (codes "srv" ∷ []) logged.tree
unfolding program
delete_account_confined_example =
    delete_account_confined demo logged (omega arith) datadir_literal bob-IsNamed refl none
      (codes "srv" ∷ []) obliging-RunsRm refl

bob_deleted : (client_handle_delete_account demo none logged).0 ≡ replied user_deleted_successfully
unfolding program
bob_deleted = refl

delete_account_deletes_example :
    ((client_handle_delete_account demo none logged).1.session ≡ no_session)
    × (node_at (codes "password" ∷ bob_dir) (client_handle_delete_account demo none logged).1.tree
        ≡ none)
unfolding program
delete_account_deletes_example =
    delete_account_deletes demo logged (omega arith) datadir_literal bob-IsNamed refl none
      (codes "password" ∷ bob_dir) obliging-RunsRm bob_deleted refl
