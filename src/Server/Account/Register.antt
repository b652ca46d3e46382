-- ===== src/Server/Account/Register.antt =====
-- What REGISTER answers on a system that refuses nothing.
use thing.Prelude.{
  ◌≡◌, ◌≢◌, ◌<◌, ◌≤◌, ap, ◌∙◌, true, false, none, some, [], ◌∷◌, Bytes, codes, length, arith,
  Bool-cases, Option-cases, inl, inr, if◌then◌else◌,
}
use thing.Files.{
  directory, file, FilePath, Tree, resolve, parent, node_at, put, is_there, Os, access,
}
use thing.Files.Laws.{IsTree, node_at-put_self}
use thing.Files.Writes.{IsObliging, access_iff, open_create_makes, write_new}
use thing.Database.{make_dirs}
use thing.Database.Beyond.{make_dirs_beyond}
use thing.Database.Success.{path_text, IsClear, resolve-path_text, make_dirs_succeeds}
use thing.Server.Types.{Server, State, replied, register_success, invalid_username, username_exists}
use thing.Server.Account.{
  account_path, rejects_username, register_user, create_account, store_password, write_password,
  credentials, client_handle_register,
}
use thing.Server.Account.Login.{dir_of, file_of}
use thing.Server.Account.Paths.{account_path_split, account_path_fits, valid-IsPlain}
use thing.Server.Account.RoundTrip.{not_there, resolve-dir_of, resolve-file_of}
use thing.Server.Account.Sessions.{accepted_name, credentials_bounded}

account_path-path_text :
    (p : FilePath) (u : Bytes) → account_path (path_text p) u ≡ path_text (u ∷ codes "accounts" ∷ p)
unfolding path_text
account_path-path_text p u = account_path_split (path_text p) u

module _ (os : Os) (kind : IsObliging os) where
  store_password_succeeds :
      (user_dir path password : Bytes) (t : Tree)
      → resolve path ≢ []
      → node_at (resolve path) t ≡ none
      → node_at (parent (resolve path)) t ≡ some directory
      → (store_password os user_dir path password t).0 ≡ register_success
  unfolding store_password write_password
  store_password_succeeds user_dir path password t ne e home =
      let made = open_create_makes os kind path t ne e home in
      let wrote =
        write_new os kind path password (put (resolve path) (file []) t)
          (node_at-put_self (resolve path) (file []) t ne) in
      rw (made, wrote)

  module _ (p : FilePath) (u : Bytes) (short : length (path_text p) < 256) (name : length u ≤ 255)
      (accepted : rejects_username u ≡ false) where
    pub dir_path : dir_of (path_text p) u ≡ path_text (u ∷ codes "accounts" ∷ p)
    dir_path = account_path_fits (path_text p) u short name ∙ account_path-path_text p u

    unfoldable pub account : FilePath
    account = u ∷ codes "accounts" ∷ p

    IsClear-account :
        (t : Tree) → IsClear (codes "accounts" ∷ p) t → node_at account t ≡ none → IsClear account t
    unfolding account
    IsClear-account t clear new =
        let good = accepted_name u accepted in (valid-IsPlain u good.0 good.1, (λ s e. cc), clear)

    no_password :
        (t : Tree)
        → IsTree t
        → node_at account t ≡ none
        → node_at (codes "password" ∷ account) t ≡ none
    no_password t w new = elim (Option-cases (node_at (codes "password" ∷ account) t)) [
      | inl e ↦ e
      | inr (n, e) ↦
          let home : node_at account t ≡ some directory =
            w.inside (codes "password" ∷ account) n e in
          cc
    ]

    create_account_succeeds :
        (password : Bytes) (t : Tree)
        → IsTree t
        → IsClear (codes "accounts" ∷ p) t
        → node_at account t ≡ none
        → (create_account os (dir_of (path_text p) u) password t).0 ≡ register_success
    unfolding create_account account
    create_account_succeeds password t w clear new =
        let whole = IsClear-account t clear new in
        let (done, there) = make_dirs_succeeds os kind u (codes "accounts" ∷ p) t whole in
        let d = dir_of (path_text p) u in
        let m : Tree = (make_dirs os d t).1 in
        let same_tree : m ≡ (make_dirs os (path_text account) t).1 =
          ap (λ x. (make_dirs os x t).1) dir_path in
        let dir : resolve d ≡ account = ap resolve dir_path ∙ resolve-path_text account t whole in
        let at : resolve (file_of (path_text p) u) ≡ codes "password" ∷ account =
          resolve-file_of os kind (path_text p) u short name ∙ ap (◌∷◌ (codes "password")) dir in
        let free : node_at (codes "password" ∷ account) m ≡ none =
          ap (node_at (codes "password" ∷ account)) same_tree
          ∙ make_dirs_beyond os (codes "password" ∷ account) u (codes "accounts" ∷ p) t kind whole
              (omega arith)
          ∙ no_password t w new in
        let home : node_at account m ≡ some directory = ap (node_at account) same_tree ∙ there in
        let fine : (make_dirs os d t).0 ≡ true = ap (λ x. (make_dirs os x t).0) dir_path ∙ done in
        rw fine (
          store_password_succeeds d (file_of (path_text p) u) password m (λ e. cc (at)) (rw at free)
            (rw at home))

    pub register_user_reply :
        (password : Bytes) (t : Tree)
        → IsTree t
        → IsClear (codes "accounts" ∷ p) t
        → (register_user os (path_text p) u password t).0
          ≡ (if is_there (node_at account t) then username_exists else register_success)
    unfolding register_user
    register_user_reply password t w clear =
        let dir : resolve (dir_of (path_text p) u) ≡ account =
          resolve-dir_of os kind (path_text p) u short name accepted
          ∙ unfold account in ap (λ q. u ∷ codes "accounts" ∷ q) (resolve-path_text p t clear.2) in
        let found =
          access_iff os kind (dir_of (path_text p) u) t (λ e. unfold account in cc (dir)) in
        elim (Bool-cases (is_there (node_at account t))) [
          | inl e ↦
              let there : access os (dir_of (path_text p) u) t ≡ true = found ∙ rw (dir, e) in
              ground (arith, there)
          | inr e ↦
              let absent : access os (dir_of (path_text p) u) t ≡ false = found ∙ rw (dir, e) in
              let new = not_there (node_at account t) e in
              rw (accepted, absent, e) (create_account_succeeds password t w clear new)
        ]

register_user_refuses :
    (os : Os) (datadir u password : Bytes) (t : Tree)
    → rejects_username u ≡ true
    → (register_user os datadir u password t).0 ≡ invalid_username
unfolding register_user
register_user_refuses os datadir u password t h = rw h

-- On a system that refuses nothing and writes all it is given, with a data directory of plain names
-- and less than 256 bytes, every node in a directory, and no file in the way of the accounts:
-- REGISTER answers INVALID_USERNAME to a name that is empty or not valid, USERNAME_EXISTS to a name
-- whose account is there, and REGISTER_SUCCESS to every other name.
pub register_reply :
    (srv : Server) (p : FilePath) (args : Bytes) (st : State)
    → IsObliging srv.os
    → srv.datadir ≡ path_text p
    → length srv.datadir < 256
    → IsTree st.tree
    → IsClear (codes "accounts" ∷ p) st.tree
    → (client_handle_register srv (some args) st).0
      ≡ replied (
          if rejects_username (credentials args).0
          then invalid_username
          else if is_there (node_at ((credentials args).0 ∷ codes "accounts" ∷ p) st.tree)
          then username_exists
          else register_success)
unfolding client_handle_register account
register_reply srv p args st kind eq short w clear =
    let (u, password) = credentials args in
    elim (Bool-cases (rejects_username u)) [
      | inl e ↦ rw (register_user_refuses srv.os srv.datadir u password st.tree e, e)
      | inr e ↦
          let reply =
            register_user_reply srv.os kind p u (rw eq at short) (credentials_bounded args).0 e
              password st.tree w clear in
          rw (e, eq, reply)
    ]
