-- ===== src/Server/Account/Paths.antt =====
-- Where the account directories lie, and that no path is cut to its buffer.
use thing.Prelude.{
  ◌+◌, ◌≤◌, ◌<◌, ◌≡◌, ◌≢◌, ap, ◌∙◌, [], ◌∷◌, ◌++◌, Bytes, codes, length, arith, append_assoc,
  length-append, true, All-map,
}
use thing.CString.{snprintf}
use thing.CString.Laws.{snprintf_fits, length-snprintf-lt}
use thing.Format.{is_valid_username}
use thing.Format.Username.{is_valid_username_iff}
use thing.Files.{resolve}
use thing.Files.Resolve.{IsPlain, resolve_entry}
use thing.Server.Account.{account_path, password_path}

-- A valid name is a plain name of a directory entry: no slash, and neither `.` nor `..`.
pub valid-IsPlain : (u : Bytes) → is_valid_username u ≡ true → u ≢ [] → IsPlain u
valid-IsPlain u h ne =
    let names = (is_valid_username_iff u).0 h in
    record {
      nonempty = ne;
      no_slash = All-map u (λ c k. ground arith) names;
      not_here = λ e. let dot = rw e at names in absurd (omega arith);
      not_up = λ e. let dot = rw e at names in absurd (omega arith);
    }

pub accounts-IsPlain : IsPlain (codes "accounts")
accounts-IsPlain = record {
  nonempty = λ e. cc;
  no_slash = ground arith;
  not_here = λ e. cc;
  not_up = λ e. cc;
}

password-IsPlain : IsPlain (codes "password")
password-IsPlain = record {
  nonempty = λ e. cc;
  no_slash = ground arith;
  not_here = λ e. cc;
  not_up = λ e. cc;
}

pub account_path_split :
    (datadir u : Bytes) → account_path datadir u ≡ (datadir ++ codes "/accounts") ++ b'/' ∷ u
unfolding account_path
account_path_split datadir u = simp append_assoc

-- The account directory is the entry of its name in `accounts`, under the data directory.
pub resolve-account_path :
    (datadir u : Bytes)
    → IsPlain u
    → resolve (account_path datadir u) ≡ u ∷ codes "accounts" ∷ resolve datadir
resolve-account_path datadir u h = rw (account_path_split datadir u) (
    resolve_entry (datadir ++ codes "/accounts") u h
    ∙ ap (◌∷◌ u) (resolve_entry datadir (codes "accounts") accounts-IsPlain))

pub resolve-password_path :
    (dir : Bytes) → resolve (password_path dir) ≡ codes "password" ∷ resolve dir
unfolding password_path
resolve-password_path dir = resolve_entry dir (codes "password") password-IsPlain

pub length-account_path :
    (datadir u : Bytes) → length (account_path datadir u) ≡ length datadir + 10 + length u
unfolding account_path
length-account_path datadir u = omega (
  arith,
  length-append {0} (datadir ++ codes "/accounts/") u,
  length-append {0} datadir (codes "/accounts/"),
)

-- In its buffer of 768 bytes the account path is not cut.
pub account_path_fits :
    (datadir u : Bytes)
    → length datadir < 256
    → length u ≤ 255
    → snprintf 768 (account_path datadir u) ≡ account_path datadir u
account_path_fits datadir u short name =
    snprintf_fits 768 (account_path datadir u) (omega (arith, length-account_path datadir u))

-- The path of the password file is not cut either, whatever the directory in its buffer.
pub password_path_fits :
    (s : Bytes) → snprintf 1024 (password_path (snprintf 768 s)) ≡ password_path (snprintf 768 s)
unfolding password_path
password_path_fits s =
    let short = length-snprintf-lt 768 s (omega arith) in
    snprintf_fits 1024 (snprintf 768 s ++ codes "/password")
      (omega (arith, length-append {0} (snprintf 768 s) (codes "/password")))
