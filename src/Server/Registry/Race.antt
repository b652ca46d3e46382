-- ===== src/Server/Registry/Race.antt =====
-- Two clients that register one name, each behind its own test for the account.
use thing.Prelude.{
  ◌≡◌, ◌≤◌, ◌<◌, refl, ap, ◌∙◌, true, false, none, some, ◌∷◌, ◌++◌, Bytes, codes, length, drop,
}
use thing.Database.MakeDirs.{make_dirs-Grows}
use thing.Database.Success.{path_text, IsClear, make_dirs_succeeds}
use thing.Database.{make_dirs}
use thing.Files.Laws.{IsTree, node_at-put_self}
use thing.Files.Writes.{IsObliging, access_iff, write_over, open_create_there}
use thing.Files.{FilePath, file, Tree, Os, resolve, node_at, put, is_there, access}
use thing.Server.Account.Login.{dir_of, file_of}
use thing.Server.Account.Paths.{valid-IsPlain}
use thing.Server.Account.Sessions.{accepted_name}
use thing.Server.Account.{
  rejects_username, register_user, create_account, store_password, write_password,
}
use thing.Server.Registry.Added.{Adds}
use thing.Server.Registry.Files.{account_dir, password_file}
use thing.Server.Registry.Register.{
  dir_at, file_at, uncut, registered, registered-Adds, register_new,
}
use thing.Server.Types.{Reply, register_success}

module _ (os : Os) (kind : IsObliging os) (p : FilePath) (short : length (path_text p) < 256)
    (u : Bytes) (name : length u ≤ 255) (accepted : rejects_username u ≡ false) (a b : Bytes)
    (t : Tree) (tree : IsTree t) (clear : IsClear (codes "accounts" ∷ p) t)
    (new : node_at (account_dir p u) t ≡ none) where
  pub not_found : access os (dir_of (path_text p) u) t ≡ false
  not_found =
      let at = dir_at os kind p short u name accepted a t tree clear in
      access_iff os kind (dir_of (path_text p) u) t (λ e. cc (at))
      ∙ rw (at, new) (unfold is_there in refl)

  abbrev pub first : Tree
  first = registered os kind p short u name accepted a t tree clear new

  pub creates_first : create_account os (dir_of (path_text p) u) a t ≡ (register_success, first)
  unfolding register_user
  creates_first =
      let whole : register_user os (path_text p) u a t ≡ (register_success, first) =
        register_new os kind p short u name accepted a t tree clear new in
      rw (accepted, not_found) at whole

  added : Adds p u a t first
  added = registered-Adds os kind p short u name accepted a t tree clear new

  abbrev again : Tree
  again = (make_dirs os (path_text (account_dir p u)) first).1

  abbrev pub second : Tree
  second = (create_account os (dir_of (path_text p) u) b first).1

  overwrites : create_account os (dir_of (path_text p) u) b first ≡ (
    register_success,
    put (resolve (file_of (path_text p) u)) (file (b ++ drop (length b) a)) again,
  )
  unfolding create_account store_password write_password
  overwrites =
      let good = accepted_name u accepted in
      let whole : IsClear (account_dir p u) first =
        (valid-IsPlain u good.0 good.1, (λ s e. cc (added.home)), added.clear) in
      let fine : (make_dirs os (path_text (account_dir p u)) first).0 ≡ true =
        (make_dirs_succeeds os kind u (codes "accounts" ∷ p) first whole).0 in
      let at : resolve (file_of (path_text p) u) ≡ password_file p u =
        file_at os kind p short u name accepted a t tree clear in
      let made : make_dirs os (dir_of (path_text p) u) first ≡ (true, again) =
        ap (λ d. make_dirs os d first) (uncut os kind p short u name accepted a t tree clear new)
        ∙ (λ i. (fine i, again)) in
      let there : node_at (resolve (file_of (path_text p) u)) again ≡ some (file a) = rw at (
        (make_dirs-Grows os (path_text (account_dir p u)) first).keeps (password_file p u) (file a)
          added.holds) in
      let opens =
        open_create_there os kind (file_of (path_text p) u) a again (λ e. cc (at)) there in
      let writes = write_over os kind (file_of (path_text p) u) b a again there in
      rw (made, opens, writes)

  pub creates_second :
      ((create_account os (dir_of (path_text p) u) b first).0 ≡ register_success)
      × (node_at (password_file p u) second ≡ some (file (b ++ drop (length b) a)))
  creates_second =
      let at = file_at os kind p short u name accepted a t tree clear in
      (
        ap (λ (r : Reply × Tree). r.0) overwrites,
        ap (λ (r : Reply × Tree). node_at (password_file p u) r.1) overwrites
            ∙ rw at (
                node_at-put_self (password_file p u) (file (b ++ drop (length b) a)) again
                  (λ e. cc)),
      )
