-- ===== src/Server/Account/RoundTrip.antt =====
-- Who registers can log in.
use thing.Prelude.{
  ℕ, ◌≤◌, ◌<◌, ◌≡◌, ◌≢◌, refl, sym, ap, ◌∙◌, true, false, Option, none, some, [], ◌∷◌, Bytes, All,
  codes, length, take, take_all, arith, Bool-cases, Option-cases, inl, inr,
}
use thing.CString.{cstr, IsCstr}
use thing.CString.Laws.{cstr-IsCstr}
use thing.Scan.Words.{sscanf-Fits, sscanf-All, field-All, Fits-no_space, field-no_space}
use thing.Scan.{is_space, sscanf}
use thing.Files.{
  Node, directory, file, FilePath, Tree, resolve, node_at, put, same_path, is_there, Os, access,
}
use thing.Files.Laws.{IsTree, node_at-put, node_at-put_self}
use thing.Files.Resolve.{same_path_iff}
use thing.Files.Writes.{
  IsObliging, open_create_new, write_new, access_iff, open_read_iff, read_file,
}
use thing.Database.{make_dirs}
use thing.Database.MakeDirs.{make_dirs-Grows, make_dirs-there}
use thing.Server.Types.{Server, State, Reply, replied, register_success, login_success}
use thing.Server.Account.Login.{dir_of, file_of, Stored, login_user_iff}
use thing.Server.Account.Paths.{
  valid-IsPlain, account_path_fits, resolve-account_path, password_path_fits, resolve-password_path,
}
use thing.Server.Account.Sessions.{accepted_name, credentials_bounded}
use thing.Server.Account.{
  account_path, rejects_username, chomp, register_user, create_account, store_password,
  write_password, login_user, credentials, logged_in, client_handle_register, client_handle_login,
}

-- A password that `sscanf` can have read.
pub record IsPassword (p : Bytes) : Type 0 where
  pub cstring : IsCstr p
  pub no_space : All (λ c. is_space c ≡ false) p
  pub bounded : length p ≤ 255

chomp_none : (p : Bytes) → All (λ c. is_space c ≡ false) p → chomp p ≡ p
unfolding chomp is_space
chomp_none [] h = refl
chomp_none (c ∷ []) h = ground (arith, h.0)
chomp_none (c ∷ d ∷ p) h = ap (◌∷◌ c) (chomp_none (d ∷ p) h.1)

pub stored_password : (p : Bytes) → IsPassword p → cstr (chomp (take 255 p)) ≡ p
stored_password p h =
    rw (take_all 255 p h.bounded, chomp_none p h.no_space) (cstr-IsCstr p h.cstring)

pub not_there : (o : Option Node) → is_there o ≡ false → o ≡ none
unfolding is_there
not_there none h = refl
not_there (some n) h = cc

same_path_entry : (p : FilePath) (n : Bytes) → same_path p (n ∷ p) ≡ false
same_path_entry p n = elim (Bool-cases (same_path p (n ∷ p))) [
  | inl e ↦ absurd (omega (arith, ap {B = ℕ} length ((same_path_iff p (n ∷ p)).0 e)))
  | inr e ↦ e
]

module _ (os : Os) (kind : IsObliging os) where
  pub store_password-stores :
      (user_dir path p : Bytes) (t : Tree)
      → resolve path ≢ []
      → ((s : Bytes) → node_at (resolve path) t ≢ some (file s))
      → (store_password os user_dir path p t).0 ≡ register_success
      → (store_password os user_dir path p t).1
        ≡ put (resolve path) (file p) (put (resolve path) (file []) t)
  unfolding store_password write_password
  store_password-stores user_dir path p t ne fresh h =
      let empty : Tree = put (resolve path) (file []) t in
      let created = open_create_new os path t fresh in
      let wrote = write_new os kind path p empty (node_at-put_self (resolve path) (file []) t ne) in
      ground (arith, created, wrote)

  module _ (datadir u : Bytes) (short : length datadir < 256) (name : length u ≤ 255) where
    pub resolve-dir_of :
        rejects_username u ≡ false
        → resolve (dir_of datadir u) ≡ u ∷ codes "accounts" ∷ resolve datadir
    resolve-dir_of h =
        let good = accepted_name u h in
        rw (account_path_fits datadir u short name)
          (resolve-account_path datadir u (valid-IsPlain u good.0 good.1))

    pub resolve-file_of :
        resolve (file_of datadir u) ≡ codes "password" ∷ resolve (dir_of datadir u)
    resolve-file_of =
        rw (password_path_fits (account_path datadir u)) (resolve-password_path (dir_of datadir u))

    -- What REGISTER leaves on disk when it succeeds.
    record Registered (p : Bytes) (t : Tree) : Type 0 where
      accepted : rejects_username u ≡ false
      made : Tree
      there : is_there (node_at (resolve (dir_of datadir u)) made) ≡ true
      result :
          t
          ≡ put
              (resolve (file_of datadir u))
              (file p)
              (put (resolve (file_of datadir u)) (file []) made)

    -- In a tree, a directory that is not there has no entries; neither has it once `make_dirs` has
    -- made it.
    pub no_file :
        (t : Tree)
        → IsTree t
        → node_at (resolve (dir_of datadir u)) t ≡ none
        → (s : Bytes)
        → node_at (resolve (file_of datadir u)) (make_dirs os (dir_of datadir u) t).1
          ≢ some (file s)
    no_file t w e s h =
        let grown = make_dirs-Grows os (dir_of datadir u) t in
        let f : FilePath = resolve (file_of datadir u) in
        elim (Option-cases (node_at f t)) [
          | inl k ↦ elim (grown.adds f k) [ inl a ↦ cc | inr b ↦ cc ]
          | inr (n, k) ↦
              let home : node_at (resolve (dir_of datadir u)) t ≡ some directory =
                rw resolve-file_of at (w.inside f n k) in
              cc
        ]

    register_user-Registered :
        (p : Bytes) (t : Tree)
        → IsTree t
        → (register_user os datadir u p t).0 ≡ register_success
        → Registered p (register_user os datadir u p t).1
    unfolding register_user create_account
    register_user-Registered p t w h =
        let ok : rejects_username u ≡ false = ground arith in
        let absent : access os (dir_of datadir u) t ≡ false = ground arith in
        let fine : (make_dirs os (dir_of datadir u) t).0 ≡ true = ground arith in
        let ne : resolve (dir_of datadir u) ≢ [] = λ e. cc (resolve-dir_of ok) in
        let gone : node_at (resolve (dir_of datadir u)) t ≡ none =
          not_there _ (sym (access_iff os kind (dir_of datadir u) t ne) ∙ absent) in
        let m : Tree = (make_dirs os (dir_of datadir u) t).1 in
        let fs : resolve (file_of datadir u) ≢ [] = λ e. cc (resolve-file_of) in
        let stored =
          store_password-stores (dir_of datadir u) (file_of datadir u) p m fs (no_file t w gone) in
        record {
          accepted = ok;
          made = m;
          there = make_dirs-there os (dir_of datadir u) t fine;
          result = ground (arith, stored);
        }

    Registered-Stored :
        (p : Bytes) (t : Tree) → IsPassword p → Registered p t → Stored os datadir u p t
    Registered-Stored p t q r =
        let d : FilePath = resolve (dir_of datadir u) in
        let f : FilePath = resolve (file_of datadir u) in
        let dn : d ≢ [] = λ e. cc (resolve-dir_of r.accepted) in
        let fn : f ≢ [] = λ e. cc (resolve-file_of) in
        let apart : same_path d f ≡ false =
          rw resolve-file_of (same_path_entry d (codes "password")) in
        let written : node_at f t ≡ some (file p) =
          rw r.result (node_at-put_self f (file p) _ fn) in
        let kept : node_at d t ≡ node_at d r.made =
          rw r.result (
            node_at-put d f (file p) _ fn ∙ rw apart (node_at-put d f (file []) _ fn ∙ rw apart)) in
        record {
          known = access_iff os kind (dir_of datadir u) t dn ∙ rw kept r.there;
          opens =
              open_read_iff os kind (file_of datadir u) t fn ∙ rw written (unfold is_there in refl);
          bytes = take 255 p;
          reads = read_file os kind (file_of datadir u) 255 t p written;
          matches = stored_password p q;
        }

    -- A user who could register with a password can log in with it.
    pub register_user-login_user :
        (p : Bytes) (t : Tree)
        → IsTree t
        → IsPassword p
        → (register_user os datadir u p t).0 ≡ register_success
        → login_user os datadir u p (register_user os datadir u p t).1 ≡ login_success
    register_user-login_user p t w q h =
        let r = register_user-Registered p t w h in
        (login_user_iff os datadir u p (register_user os datadir u p t).1).1
          (r.accepted, Registered-Stored p (register_user os datadir u p t).1 q r)

replied_inj : {r s : Reply} → replied r ≡ replied s → r ≡ s
replied_inj h = cc

-- The password that REGISTER and LOGIN scan from their arguments.
pub credentials-IsPassword : (args : Bytes) → IsCstr args → IsPassword (credentials args).1
credentials-IsPassword args h =
    let fields = sscanf (255 ∷ 255 ∷ []) args in
    let fits = sscanf-Fits (255 ∷ 255 ∷ []) args (omega arith) in
    record {
      cstring =
          unfold credentials in
          field-All (λ c. 0 < c) [] fields 1 tt (sscanf-All (λ c. 0 < c) (255 ∷ 255 ∷ []) args h);
      no_space =
          unfold credentials in
          field-no_space fields 1 (Fits-no_space (255 ∷ 255 ∷ []) fields fits);
      bounded = (credentials_bounded args).1;
    }

-- On a system that refuses nothing and writes all it is given, with a data directory of less than
-- 256 bytes and every node in a directory: when REGISTER has answered REGISTER_SUCCESS to arguments
-- without a NUL, LOGIN with the same arguments answers LOGIN_SUCCESS, the session is logged in under
-- the name that was registered, and LOGIN changes no file.
pub register-login :
    (srv : Server) (args : Bytes) (st : State)
    → IsObliging srv.os
    → length srv.datadir < 256
    → IsTree st.tree
    → IsCstr args
    → (client_handle_register srv (some args) st).0 ≡ replied register_success
    → client_handle_login srv (some args) (client_handle_register srv (some args) st).1 ≡ (
      replied login_success,
      record {
        session = record { username = (credentials args).0; authenticated = true };
        tree = (client_handle_register srv (some args) st).1.tree;
      },
    )
unfolding client_handle_register client_handle_login logged_in
register-login srv args st kind short w c h =
    let (u, p) = credentials args in
    let ok : (register_user srv.os srv.datadir u p st.tree).0 ≡ register_success = replied_inj h in
    let name = (credentials_bounded args).0 in
    let won =
      register_user-login_user srv.os kind srv.datadir u short name p st.tree w
        (credentials-IsPassword args c) ok in
    rw (won, take_all 255 u name)
