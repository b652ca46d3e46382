-- ===== src/Server/Registry/Files.antt =====
-- The table of accounts as it stands in the files.
use thing.Prelude.{
  ℕ, ◌≡◌, ◌≢◌, ◌≤◌, ◌<◌, ap, true, false, Option, none, some, [], ◌∷◌, ◌++◌, Bytes, codes, length,
  arith, Bool-cases, inl, inr,
}
use thing.CString.{same}
use thing.CString.Laws.{same_iff}
use thing.Database.Success.{path_text, IsClear}
use thing.Files.Laws.{IsTree}
use thing.Files.Resolve.{same_path_iff}
use thing.Files.Writes.{IsObliging}
use thing.Files.{FilePath, directory, file, Tree, Os, resolve, same_path, node_at}
use thing.Format.{is_valid_username}
use thing.Server.Account.Delete.{IsLiteralPath, RunsRm}
use thing.Server.Account.RoundTrip.{IsPassword}
use thing.Server.Account.{rejects_username, account_path}
use thing.Server.Registry.{Registry, update}

-- The directory of an account below the data directory `p`, and its password file.
abbrev pub account_dir : FilePath → Bytes → FilePath
account_dir p u = u ∷ codes "accounts" ∷ p

abbrev pub password_file : FilePath → Bytes → FilePath
password_file p u = codes "password" ∷ account_dir p u

-- A name has an account exactly if its directory is there, and then its file holds the password.
pub record Represents (p : FilePath) (t : Tree) (r : Registry) : Type 0 where
  pub tree : IsTree t
  pub clear : IsClear (codes "accounts" ∷ p) t
  pub absent :
      (u : Bytes) → rejects_username u ≡ false → r u ≡ none → node_at (account_dir p u) t ≡ none
  pub home :
      (u q : Bytes)
      → rejects_username u ≡ false
      → r u ≡ some q
      → node_at (account_dir p u) t ≡ some directory
  pub holds :
      (u q : Bytes)
      → rejects_username u ≡ false
      → r u ≡ some q
      → node_at (password_file p u) t ≡ some (file q)
  pub password : (u q : Bytes) → rejects_username u ≡ false → r u ≡ some q → IsPassword q

-- An answer and the files behind it, as the table has them.
pub record Agrees {A : Type 0} (p : FilePath) (result : A × Tree) (promised : A × Registry)
    : Type 0 where
  pub reply : result.0 ≡ promised.0
  pub files : Represents p result.1 promised.1

-- A system that refuses nothing and writes all it is given, whose shell runs `rm -rf` as documented,
-- and without a failure on the directories of accounts, and a data directory of plain names and
-- literal bytes.
pub record Works (os : Os) (datadir : Bytes) (p : FilePath) : Type 0 where
  pub kind : IsObliging os
  pub is : datadir ≡ path_text p
  pub short : length datadir < 256
  pub literal : IsLiteralPath datadir
  pub rm : RunsRm os
  pub removes :
      (username : Bytes) (t : Tree)
      → is_valid_username username ≡ true
      → username ≢ []
      → resolve (account_path datadir username) ≢ []
      → (os.system (codes "rm -rf " ++ account_path datadir username) t).0 ≡ true

pub update_self : (r : Registry) (u : Bytes) (p : Option Bytes) → update r u p u ≡ p
unfolding update
update_self r u p = ground (arith, same_iff u u)

pub update_other :
    (r : Registry) (u : Bytes) (p : Option Bytes) (v : Bytes)
    → same u v ≡ false
    → update r u p v ≡ r v
unfolding update
update_other r u p v h = rw h

-- Paths that differ, by their lengths or by the name of the account.
pub short_path : (q p : FilePath) → length q < length p → same_path q p ≡ false
short_path q p h = elim (Bool-cases (same_path q p)) [
  | inl e ↦ absurd (omega (arith, ap {B = ℕ} length ((same_path_iff q p).0 e)))
  | inr e ↦ e
]

pub other_account :
    (p : FilePath) (u v : Bytes)
    → same u v ≡ false
    → same_path (account_dir p v) (account_dir p u) ≡ false
unfolding same_path
other_account p u v h = ground (arith, same_iff v u, same_iff u v)

pub other_password :
    (p : FilePath) (u v : Bytes)
    → same u v ≡ false
    → same_path (password_file p v) (password_file p u) ≡ false
unfolding same_path
other_password p u v h = ground (arith, same_iff v u, same_iff u v)

-- A path stays clear where its prefixes hold no other file.
pub IsClear-change :
    (p : FilePath) (t u : Tree)
    → ((q : FilePath) (s : Bytes)
        → length q ≤ length p
        → node_at q u ≡ some (file s)
        → node_at q t ≡ some (file s))
    → IsClear p t
    → IsClear p u
IsClear-change [] t u h c = tt
IsClear-change (n ∷ p) t u h (plain, here, above) = (
  plain,
  (λ s e. here s (h (n ∷ p) s (omega arith) e)),
  IsClear-change p t u (λ q s l e. h q s (omega arith) e) above,
)
