-- ===== src/Tests/Registry.antt =====
-- A connection against the table of accounts, at concrete inputs.
use thing.Prelude.{◌≡◌, ◌≢◌, refl, true, false, none, some, List, [], ◌∷◌, Bytes, codes, arith, All}
use mathlib.Core.List.{map}
use thing.Files.{FilePath, Tree, resolve, node_at, file}
use thing.Server.Connection.{handle_client_connection}
use thing.Server.Registry
use thing.Server.Registry.Connection.{Served, connection_refines}
use thing.Server.Registry.Files.{Represents, Works, password_file}
use thing.Server.Registry.Safety.{connection_guards}
use thing.Server.Account.{account_path, rejects_username, login_user}
use thing.CString.{is_empty}
use thing.Server.Registry.{Registry, Request, Service, requests, meaning}
use thing.Server.Types.{
  no_session, register_success, password_incorrect, login_success, user_deleted_successfully,
  username_not_found, invalid_command,
}
use thing.Tests.Accounts.{obliging-IsObliging, obliging-RunsRm, datadir_literal, home-IsTree}
use thing.Tests.Parts.{accounts-IsClear}
use thing.Tests.{program, remove_tree, obliging, demo, home}

abbrev data_path : FilePath
data_path = codes "ripple" ∷ codes "srv" ∷ []

abbrev nobody : Registry
nobody = λ u. none

home-Represents : Represents data_path home nobody
unfolding program
home-Represents = record {
  tree = home-IsTree;
  clear = accounts-IsClear;
  absent = λ u ok e. refl;
  home = λ u q ok e. cc;
  holds = λ u q ok e. cc;
  password = λ u q ok e. cc;
}

removes_all : (p : FilePath) (t : Tree) → p ≢ [] → (remove_tree p t).0 ≡ true
unfolding remove_tree
removes_all [] t h = absurd (h refl)
removes_all (n ∷ p) t h = refl

demo-Works : Works obliging demo.datadir data_path
unfolding program
demo-Works = record {
  kind = obliging-IsObliging;
  is = refl;
  short = omega arith;
  literal = datadir_literal;
  rm = obliging-RunsRm;
  removes = λ username t ok named h. removes_all (resolve (account_path demo.datadir username)) t h;
}

abbrev reads : List Bytes
reads =
    codes "REGISTER bob pw"
    ∷ codes "LOGIN bob no"
    ∷ codes "HELLO"
    ∷ codes "LOGIN bob pw"
    ∷ codes "DELETE_ACCOUNT"
    ∷ codes "LOGIN bob pw"
    ∷ []

abbrev asked : List Request
asked =
    Registry.register (codes "bob") (codes "pw")
    ∷ Registry.login (codes "bob") (codes "no")
    ∷ Registry.unknown
    ∷ Registry.login (codes "bob") (codes "pw")
    ∷ Registry.delete_account
    ∷ Registry.login (codes "bob") (codes "pw")
    ∷ []

reads_mean : map meaning reads ≡ map some asked
unfolding program meaning Registry.asks Registry.request_of
reads_mean = refl

connection_refines_example :
    Served data_path
      (handle_client_connection demo true reads home)
      (requests asked (record { registry = nobody; session = no_session }))
unfolding thing.CString.is_empty
connection_refines_example =
    connection_refines demo data_path demo-Works reads asked home nobody
      (refl, (refl, (refl, (refl, (refl, (refl, tt)))))) reads_mean home-Represents

-- Alice asks for what she can while Bob's account is there.
abbrev bob_reads : List Bytes
bob_reads = codes "REGISTER bob pw" ∷ []

abbrev bob_asked : List Request
bob_asked = Registry.register (codes "bob") (codes "pw") ∷ []

bob_reads_mean : map meaning bob_reads ≡ map some bob_asked
unfolding program meaning Registry.asks Registry.request_of
bob_reads_mean = refl

abbrev bobs_home : Tree
bobs_home = (handle_client_connection demo true bob_reads home).2.tree

abbrev bobs : Registry
bobs = (requests bob_asked (record { registry = nobody; session = no_session })).1.registry

bobs-Represents : Represents data_path bobs_home bobs
unfolding thing.CString.is_empty
bobs-Represents =
    (connection_refines demo data_path demo-Works bob_reads bob_asked home nobody (refl, tt)
      bob_reads_mean home-Represents).files

abbrev alice_reads : List Bytes
alice_reads =
    codes "REGISTER alice x"
    ∷ codes "LOGIN alice x"
    ∷ codes "REGISTER bob x"
    ∷ codes "LOGIN bob x"
    ∷ codes "DELETE_ACCOUNT"
    ∷ []

abbrev alice_asked : List Request
alice_asked =
    Registry.register (codes "alice") (codes "x")
    ∷ Registry.login (codes "alice") (codes "x")
    ∷ Registry.register (codes "bob") (codes "x")
    ∷ Registry.login (codes "bob") (codes "x")
    ∷ Registry.delete_account
    ∷ []

alice_reads_mean : map meaning alice_reads ≡ map some alice_asked
unfolding program meaning Registry.asks Registry.request_of
alice_reads_mean = refl

bob_accepted : rejects_username (codes "bob") ≡ false
unfolding program
bob_accepted = refl

bob_known : bobs (codes "bob") ≡ some (codes "pw")
unfolding program requests Registry.request Registry.enroll Registry.update
bob_known = refl

alice_guesses : All (λ x. x ≢ Registry.login (codes "bob") (codes "pw")) alice_asked
alice_guesses = ((λ e. cc), ((λ e. cc), ((λ e. cc), ((λ e. cc), ((λ e. cc), tt)))))

alice_reads_full : All (λ b. is_empty b ≡ false) alice_reads
unfolding is_empty
alice_reads_full = (refl, (refl, (refl, (refl, (refl, tt)))))

connection_guards_example :
    (node_at
        (password_file data_path (codes "bob"))
        (handle_client_connection demo true alice_reads bobs_home).2.tree
      ≡ some (file (codes "pw")))
    × (login_user demo.os demo.datadir
          (codes "bob")
          (codes "pw")
          (handle_client_connection demo true alice_reads bobs_home).2.tree
        ≡ login_success)
connection_guards_example =
    connection_guards demo data_path demo-Works (codes "bob") (codes "pw") alice_reads alice_asked
      bobs_home bobs bob_accepted (omega arith) bob_known alice_guesses alice_reads_full
      alice_reads_mean bobs-Represents

-- The table answers as expected.
answers :
    (requests asked (record { registry = nobody; session = no_session })).0
    ≡ register_success ∷ password_incorrect ∷ invalid_command ∷ login_success
      ∷ user_deleted_successfully ∷ username_not_found ∷ []
unfolding program requests Registry.request Registry.enroll Registry.admit Registry.update
answers = refl
