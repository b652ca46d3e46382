-- ===== src/Server/Account/Delete.antt =====
-- What DELETE_ACCOUNT hands to the shell, and what it can touch.
use thing.Prelude.{
  ℕ, ◌<◌, ◌≡◌, ◌⊎◌, inl, refl, ap, Bool, true, false, ◌||◌, Option, none, [], ◌∷◌, ◌++◌, Bytes, All,
  All-append, All-map, codes, length, arith,
}
use thing.CString.Laws.{snprintf_fits}
use thing.Format.{is_valid_username}
use thing.Format.Username.{IsNameByte, is_valid_username_iff}
use thing.Files.{FilePath, Tree, resolve, node_at, same_path, Os}
use thing.Server.Types.{no_session, Server, State, replied, user_deleted_successfully}
use thing.Server.Account.Paths.{length-account_path, resolve-account_path, valid-IsPlain}
use thing.Server.Account.Sessions.{IsNamed}
use thing.Server.Account.{account_path, delete_command, deleted, client_handle_delete_account}

-- The node at `q` is the one at `p`, or lies below it.
unfoldable pub is_under : FilePath → FilePath → Bool
is_under p [] = same_path p []
is_under p (n ∷ q) = same_path p (n ∷ q) || is_under p q

-- A byte that a shell takes as it stands.
abbrev pub IsLiteral : ℕ → Type 0
IsLiteral c = IsNameByte c ⊎ (c ≡ b'/') ⊎ (c ≡ b'.') ⊎ (c ≡ b'-')

-- An absolute path text of such bytes.
pub record IsLiteralPath (path : Bytes) : Type 0 where
  pub literal : All IsLiteral path
  pub rest : Bytes
  pub absolute : path ≡ b'/' ∷ rest

-- `system` runs a shell, in which `rm -rf` with one literal path removes nothing outside that
-- path, and has status 0 only if nothing is left there.
pub record RunsRm (os : Os) : Type 0 where
  pub outside :
      (path : Bytes) (t : Tree) (q : FilePath)
      → IsLiteralPath path
      → is_under (resolve path) q ≡ false
      → node_at q (os.system (codes "rm -rf " ++ path) t).1 ≡ node_at q t
  pub inside :
      (path : Bytes) (t : Tree) (q : FilePath)
      → IsLiteralPath path
      → (os.system (codes "rm -rf " ++ path) t).0 ≡ true
      → is_under (resolve path) q ≡ true
      → node_at q (os.system (codes "rm -rf " ++ path) t).1 ≡ none

accounts-IsLiteral : All IsLiteral (codes "/accounts/")
accounts-IsLiteral = omega arith

account_path-IsLiteralPath :
    (datadir u : Bytes)
    → IsLiteralPath datadir
    → is_valid_username u ≡ true
    → IsLiteralPath (account_path datadir u)
unfolding account_path
account_path-IsLiteralPath datadir u d v = record {
  literal =
      All-append IsLiteral (datadir ++ codes "/accounts/") u
        (All-append IsLiteral datadir (codes "/accounts/") d.literal accounts-IsLiteral)
        (All-map u (λ c k. inl k) ((is_valid_username_iff u).0 v));
  rest = d.rest ++ codes "/accounts/" ++ u;
  absolute = rw (d.absolute);
}

tree-deleted : (r : Bool × Tree) (st : State) → (deleted r st).1.tree ≡ r.1
unfolding deleted
tree-deleted (true, t) st = refl
tree-deleted (false, t) st = refl

deleted-success :
    (r : Bool × Tree) (st : State)
    → (deleted r st).0 ≡ replied user_deleted_successfully
    → (r.0 ≡ true) × ((deleted r st).1.session ≡ no_session)
unfolding deleted
deleted-success (true, t) st h = (refl, refl)
deleted-success (false, t) st h = cc

module _ (srv : Server) (st : State) (short : length srv.datadir < 256)
    (plain : IsLiteralPath srv.datadir) (name : IsNamed st.session)
    (auth : st.session.authenticated ≡ true) where
  -- The command is `rm -rf` and the account's directory, neither cut nor open to expansion.
  pub delete_command_lem :
      delete_command srv st.session
      ≡ codes "rm -rf " ++ account_path srv.datadir st.session.username
  unfolding delete_command
  delete_command_lem =
      let u = st.session.username in
      let l = length-account_path srv.datadir u in
      let b = name.bounded auth in
      rw (snprintf_fits 1024 (account_path srv.datadir u) (omega arith))
        (snprintf_fits 2048 (codes "rm -rf " ++ account_path srv.datadir u) (omega arith))

  -- What DELETE_ACCOUNT may touch.
  abbrev pub account_dir : FilePath
  account_dir = st.session.username ∷ codes "accounts" ∷ resolve srv.datadir

  pub runs :
      (args : Option Bytes)
      → client_handle_delete_account srv args st
        ≡ deleted
            (srv.os.system
              (codes "rm -rf " ++ account_path srv.datadir st.session.username)
              st.tree)
            st
  runs args =
      unfold client_handle_delete_account in
      ground (arith, ap (λ c. deleted (srv.os.system c st.tree) st) delete_command_lem)

  pub resolved : resolve (account_path srv.datadir st.session.username) ≡ account_dir
  resolved =
      resolve-account_path srv.datadir st.session.username
        (valid-IsPlain st.session.username (name.valid auth) (name.nonempty auth))

  pub literal_path : IsLiteralPath (account_path srv.datadir st.session.username)
  literal_path = account_path-IsLiteralPath srv.datadir st.session.username plain (name.valid auth)

  -- DELETE_ACCOUNT of a session that is logged in, with a name of letters, digits and underscores,
  -- changes no node outside the directory of its account, if the data directory is an absolute path
  -- of less than 256 letters, digits, `_`, `/`, `.` and `-`, and the shell runs `rm -rf` on a
  -- literal path as documented.
  pub delete_account_confined :
      (args : Option Bytes) (q : FilePath)
      → RunsRm srv.os
      → is_under account_dir q ≡ false
      → node_at q (client_handle_delete_account srv args st).1.tree ≡ node_at q st.tree
  delete_account_confined args q rm out =
      rw (runs args, tree-deleted) (rm.outside _ st.tree q literal_path (rw resolved out))

  -- When DELETE_ACCOUNT of a session that is logged in, with a name of letters, digits and
  -- underscores, answers USER_DELETED_SUCCESSFULLY, the session is the empty one, and nothing is left
  -- at or below the directory of the account, if the data directory is an absolute path of less than
  -- 256 letters, digits, `_`, `/`, `.` and `-`, and the shell runs `rm -rf` on a literal path as
  -- documented.
  pub delete_account_deletes :
      (args : Option Bytes) (q : FilePath)
      → RunsRm srv.os
      → (client_handle_delete_account srv args st).0 ≡ replied user_deleted_successfully
      → is_under account_dir q ≡ true
      → ((client_handle_delete_account srv args st).1.session ≡ no_session)
        × (node_at q (client_handle_delete_account srv args st).1.tree ≡ none)
  delete_account_deletes args q rm won under =
      let r : Bool × Tree =
        srv.os.system (codes "rm -rf " ++ account_path srv.datadir st.session.username) st.tree in
      let done = deleted-success r st (rw (runs args) at won) in
      rw (runs args, tree-deleted)
        (done.1, rm.inside _ st.tree q literal_path done.0 (rw resolved under))
