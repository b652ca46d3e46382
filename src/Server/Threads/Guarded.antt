-- ===== src/Server/Threads/Guarded.antt =====
-- What no call of a thread does to an account whose password its client does not send.
use thing.Prelude.{
  ℕ, ◌≡◌, ◌≢◌, ◌≤◌, ◌<◌, refl, ap, ◌∙◌, Bool, true, false, Option, none, some, [], ◌∷◌, Bytes,
  codes, length, arith, Bool-cases, inl, inr,
}
use thing.CString.{same}
use thing.CString.Laws.{same_iff}
use thing.Files.Elsewhere.{open_create_other, write_other, unlink_other, rmdir_other}
use thing.Files.Laws.{mkdir-Grows}
use thing.Files.Resolve.{same_path_iff}
use thing.Files.Writes.{IsObliging, access_iff}
use thing.Files.{
  FilePath, directory, file, Tree, Os, resolve, same_path, node_at, is_there, access, mkdir,
  open_create,
}
use thing.Server.Account.Login.{dir_of, file_of}
use thing.Server.Account.RoundTrip.{resolve-dir_of, resolve-file_of}
use thing.Server.Account.{rejects_username}
use thing.Server.Registry.Files.{account_dir, password_file, other_account, other_password}
use thing.Server.Threads.Directories.{directories-Keeps}
use thing.Server.Threads.Handlers.{
  make_dirs_calls, written_password, after_password, store_password_calls, create_account_calls,
  register_user_calls,
}
use thing.Server.Threads.Program.{◌>>=◌, Keeps, Keeps-bind, Keeps-either}

unlike_lengths : (a b : FilePath) → length a ≢ length b → same_path a b ≡ false
unlike_lengths a b ne = elim (Bool-cases (same_path a b)) [
  | inl e ↦ absurd (ne (ap {B = ℕ} length ((same_path_iff a b).0 e)))
  | inr e ↦ e
]

-- The account of `u` with the password `q`, below the directory `base`.
pub record Intact (base : FilePath) (u q : Bytes) (t : Tree) : Type 0 where
  pub home : node_at (account_dir base u) t ≡ some directory
  pub holds : node_at (password_file base u) t ≡ some (file q)

module _ (os : Os) (base : FilePath) (u q : Bytes) where
  -- A path text that names neither the directory nor the password file.
  pub record Beside (path : Bytes) : Type 0 where
    pub named : resolve path ≢ []
    pub home : same_path (account_dir base u) (resolve path) ≡ false
    pub holds : same_path (password_file base u) (resolve path) ≡ false

  pub Intact-unchanged :
      (t v : Tree)
      → node_at (account_dir base u) v ≡ node_at (account_dir base u) t
      → node_at (password_file base u) v ≡ node_at (password_file base u) t
      → Intact base u q t
      → Intact base u q v
  Intact-unchanged t v a b i = record { home = a ∙ i.home; holds = b ∙ i.holds }

  pub mkdir-Intact :
      (path : Bytes) (t : Tree) → Intact base u q t → Intact base u q (mkdir os path t).1
  mkdir-Intact path t i =
      let g = mkdir-Grows os path t in
      record {
        home = g.keeps (account_dir base u) directory i.home;
        holds = g.keeps (password_file base u) (file q) i.holds;
      }

  written_password-Intact :
      (path pw : Bytes) (t : Tree)
      → Beside path
      → Intact base u q t
      → Intact base u q (written_password os path pw t).1
  unfolding written_password
  written_password-Intact path pw t b i =
      let opened : Intact base u q (open_create os path t).1 =
        Intact-unchanged t _ (open_create_other os _ path b.named b.home t)
          (open_create_other os _ path b.named b.holds t) i in
      let v : Tree = (open_create os path t).1 in
      elim (Bool-cases (open_create os path t).0) [
        | inl e ↦ rw e (
            Intact-unchanged v _ (write_other os _ path b.named b.home pw v)
              (write_other os _ path b.named b.holds pw v) opened)
        | inr e ↦ rw e opened
      ]

  after_password-Intact :
      (user_dir path : Bytes) (written : Option Bool)
      → Beside user_dir
      → Beside path
      → Keeps (Intact base u q) (after_password os user_dir path written)
  unfolding after_password ◌>>=◌
  after_password-Intact user_dir path none d b = λ t i. (
    Intact-unchanged t _ (rmdir_other os _ user_dir d.named d.home t)
        (rmdir_other os _ user_dir d.named d.holds t) i,
    tt,
  )
  after_password-Intact user_dir path (some false) d b = λ t i. (
    Intact-unchanged t _ (unlink_other os _ path b.named b.home t)
        (unlink_other os _ path b.named b.holds t) i,
    λ v k. (
      Intact-unchanged v _ (rmdir_other os _ user_dir d.named d.home v)
          (rmdir_other os _ user_dir d.named d.holds v) k,
      tt,
    ),
  )
  after_password-Intact user_dir path (some true) d b = tt

  pub create_account-Intact :
      (user_dir path pw : Bytes)
      → Beside user_dir
      → Beside path
      → Keeps (Intact base u q) (store_password_calls os user_dir path pw)
  unfolding store_password_calls ◌>>=◌
  create_account-Intact user_dir path pw d b =
      λ t i. (written_password-Intact path pw t b i, after_password-Intact user_dir path _ d b)

module _ (os : Os) (kind : IsObliging os) (datadir : Bytes) (short : length datadir < 256)
    (u q : Bytes) (accepted : rejects_username u ≡ false) (name : length u ≤ 255) where
  pub found : (t : Tree) → Intact (resolve datadir) u q t → access os (dir_of datadir u) t ≡ true
  found t i =
      let at : resolve (dir_of datadir u) ≡ account_dir (resolve datadir) u =
        resolve-dir_of os kind datadir u short name accepted in
      access_iff os kind (dir_of datadir u) t (λ e. cc (at))
      ∙ rw (at, i.home) (unfold is_there in refl)

  module _ (v : Bytes) (ok : rejects_username v ≡ false) (fits : length v ≤ 255)
      (other : same v u ≡ false) where
    abbrev base : FilePath
    base = resolve datadir

    at : resolve (dir_of datadir v) ≡ account_dir base v
    at = resolve-dir_of os kind datadir v short fits ok

    file_at : resolve (file_of datadir v) ≡ password_file base v
    file_at = resolve-file_of os kind datadir v short fits ∙ ap (◌∷◌ (codes "password")) at

    dir-Beside : Beside os base u q (dir_of datadir v)
    dir-Beside = record {
      named = λ e. cc (at);
      home = rw at (other_account base v u other);
      holds =
          rw at
            (unlike_lengths (password_file base u) (account_dir base v) (λ e. omega (arith, e)));
    }

    file-Beside : Beside os base u q (file_of datadir v)
    file-Beside = record {
      named = λ e. cc (file_at);
      home =
          rw file_at
            (unlike_lengths (account_dir base u) (password_file base v) (λ e. omega (arith, e)));
      holds = rw file_at (other_password base v u other);
    }

    register_other :
        (pw : Bytes) → Keeps (Intact base u q) (create_account_calls os (dir_of datadir v) pw)
    unfolding create_account_calls
    register_other pw =
        Keeps-bind (Intact base u q) (make_dirs_calls os (dir_of datadir v)) _
          (directories-Keeps os (Intact base u q) (mkdir-Intact os base u q) (dir_of datadir v))
          (λ made.
            Keeps-either (Intact base u q) made _ _
              (create_account-Intact os base u q (dir_of datadir v) (file_of datadir v) pw
                dir-Beside file-Beside)
              tt)

  -- REGISTER, also of that very name.
  pub register_user-Intact :
      (v pw : Bytes)
      → length v ≤ 255
      → Keeps (Intact (resolve datadir) u q) (register_user_calls os datadir v pw)
  unfolding register_user_calls ◌>>=◌
  register_user-Intact v pw fits = elim (Bool-cases (rejects_username v)) [
    | inl e ↦ rw e tt
    | inr e ↦ rw e (λ t i. (
      i,
      elim (Bool-cases (same v u)) [
        | inl own ↦ rw ((same_iff v u).0 own, found t i) tt
        | inr other ↦
            Keeps-either (Intact (resolve datadir) u q) (access os (dir_of datadir v) t) _ _ tt
              (register_other v e fits other pw)
      ],
    ))
  ]
