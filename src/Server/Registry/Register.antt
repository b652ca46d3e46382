-- ===== src/Server/Registry/Register.antt =====
-- REGISTER changes the table of accounts as it promises.
use thing.Prelude.{
  ◌≡◌, ◌≤◌, ◌<◌, refl, sym, ap, ◌∙◌, true, false, none, some, [], ◌∷◌, Bytes, codes, length, arith,
  Bool-cases, Option-cases, inl, inr, if◌then◌else◌,
}
use thing.Database.Beyond.{make_dirs-Aside, make_dirs_beyond, Aside-longer}
use thing.Database.MakeDirs.{make_dirs-Grows, make_dirs-IsTree}
use thing.Database.Success.{
  path_text, IsClear, IsClear-Grows, make_dirs_succeeds, resolve-path_text,
}
use thing.Database.{make_dirs}
use thing.Files.Laws.{IsTree, IsTree-put, node_at-put, node_at-put_self}
use thing.Files.Resolve.{same_path_iff}
use thing.Files.Writes.{IsObliging, access_iff}
use thing.Files.{
  FilePath, Node, directory, file, Tree, Os, resolve, same_path, node_at, put, is_there, access,
}
use thing.Server.Account.Login.{dir_of, file_of}
use thing.Server.Account.Paths.{valid-IsPlain}
use thing.Server.Account.Register.{dir_path, register_user_reply}
use thing.Server.Account.RoundTrip.{
  IsPassword, resolve-dir_of, resolve-file_of, store_password-stores, no_file,
}
use thing.Server.Account.Sessions.{accepted_name}
use thing.Server.Account.{rejects_username, register_user, create_account}
use thing.Server.Registry.Added.{Adds, Adds-Represents}
use thing.Server.Registry.Files.{
  account_dir, password_file, Represents, Agrees, short_path, other_account, IsClear-change,
}
use thing.Server.Registry.{Registry, enroll}
use thing.Server.Types.{register_success, username_exists}

module _ (os : Os) (kind : IsObliging os) (p : FilePath) (short : length (path_text p) < 256)
    (u : Bytes) (name : length u ≤ 255) (accepted : rejects_username u ≡ false) (pw : Bytes)
    (t : Tree) (tree : IsTree t) (clear : IsClear (codes "accounts" ∷ p) t) where
  pub dir_at : resolve (dir_of (path_text p) u) ≡ account_dir p u
  dir_at =
      resolve-dir_of os kind (path_text p) u short name accepted
      ∙ ap (λ q. u ∷ codes "accounts" ∷ q) (resolve-path_text p t clear.2)

  pub file_at : resolve (file_of (path_text p) u) ≡ password_file p u
  file_at = resolve-file_of os kind (path_text p) u short name ∙ ap (◌∷◌ (codes "password")) dir_at

  -- A name that is taken is refused, and nothing changes.
  pub register_taken :
      node_at (account_dir p u) t ≡ some directory
      → register_user os (path_text p) u pw t ≡ (username_exists, t)
  unfolding register_user
  register_taken e =
      let found : access os (dir_of (path_text p) u) t ≡ true =
        access_iff os kind (dir_of (path_text p) u) t (λ k. cc (dir_at))
        ∙ rw (dir_at, e) (unfold is_there in refl) in
      rw (accepted, found)

  module _ (new : node_at (account_dir p u) t ≡ none) where
    whole : IsClear (account_dir p u) t
    whole =
        let good = accepted_name u accepted in (valid-IsPlain u good.0 good.1, (λ s e. cc), clear)

    -- The tree with the directories made.
    abbrev pub made : Tree
    made = (make_dirs os (path_text (account_dir p u)) t).1

    register_reply_new : (register_user os (path_text p) u pw t).0 ≡ register_success
    unfolding thing.Server.Account.Register.account
    register_reply_new =
        register_user_reply os kind p u short name accepted pw t tree clear
        ∙ ap (λ o. if is_there o then username_exists else register_success) new
        ∙ unfold is_there in refl

    pub uncut : dir_of (path_text p) u ≡ path_text (account_dir p u)
    unfolding thing.Server.Account.Register.account
    uncut = dir_path os kind p u short name accepted

    stored :
        (register_user os (path_text p) u pw t).0 ≡ register_success
        → (register_user os (path_text p) u pw t).1
          ≡ put (resolve (file_of (path_text p) u)) (file pw) (
              put
                (resolve (file_of (path_text p) u))
                (file [])
                (make_dirs os (dir_of (path_text p) u) t).1)
    unfolding register_user create_account
    stored h =
        let m : Tree = (make_dirs os (dir_of (path_text p) u) t).1 in
        let absent : access os (dir_of (path_text p) u) t ≡ false = ground arith in
        let fine : (make_dirs os (dir_of (path_text p) u) t).0 ≡ true = ground arith in
        let kept =
          store_password-stores os kind (dir_of (path_text p) u) (file_of (path_text p) u) pw m
            (λ e. cc (file_at))
            (no_file os kind (path_text p) u short name t tree
              (ap (λ q. node_at q t) dir_at ∙ new)) in
        ground (arith, kept)

    register_tree_new :
        (register_user os (path_text p) u pw t).1
        ≡ put (password_file p u) (file pw) (put (password_file p u) (file []) made)
    register_tree_new =
        stored register_reply_new ∙ rw (file_at, ap (λ d. (make_dirs os d t).1) uncut)

    made_home : node_at (account_dir p u) made ≡ some directory
    made_home = (make_dirs_succeeds os kind u (codes "accounts" ∷ p) t whole).1

    made_free : node_at (password_file p u) made ≡ none
    made_free =
        make_dirs_beyond os (password_file p u) u (codes "accounts" ∷ p) t kind whole (omega arith)
        ∙ empty
      where
        empty : node_at (password_file p u) t ≡ none
        empty = elim (Option-cases (node_at (password_file p u) t)) [
          | inl e ↦ e
          | inr (n, e) ↦
              let home : node_at (account_dir p u) t ≡ some directory =
                tree.inside (password_file p u) n e in
              cc
        ]

    abbrev pub registered : Tree
    registered = put (password_file p u) (file pw) (put (password_file p u) (file []) made)

    -- Each path but that of the password is as `make_dirs` left it.
    registered_other :
        (q : FilePath)
        → same_path q (password_file p u) ≡ false
        → node_at q registered ≡ node_at q made
    registered_other q h = rw (
      node_at-put q (password_file p u) (file pw) (put (password_file p u) (file []) made)
          (λ e. cc),
      h,
      node_at-put q (password_file p u) (file []) made (λ e. cc),
      h,
    )

    registered_short :
        (q : FilePath)
        → length q < length (password_file p u)
        → node_at q registered ≡ node_at q made
    registered_short q h = registered_other q (short_path q (password_file p u) h)

    made-IsTree : IsTree made
    made-IsTree = make_dirs-IsTree os (path_text (account_dir p u)) t tree

    registered-IsTree : IsTree registered
    registered-IsTree =
        let F : FilePath = password_file p u in
        let first : IsTree (put F (file []) made) =
          IsTree-put F (file []) made (λ e. cc) (λ e. cc (made_free)) made_home made-IsTree in
        let empty : node_at F (put F (file []) made) ≡ some (file []) =
          node_at-put_self F (file []) made (λ e. cc) in
        IsTree-put F (file pw) (put F (file []) made) (λ e. cc) (λ e. cc (empty))
          (first.inside F (file []) empty) first

    -- What was there stays there: the password was not.
    kept : (q : FilePath) (n : Node) → node_at q t ≡ some n → node_at q registered ≡ some n
    kept q n e =
        let stays : node_at q made ≡ some n =
          (make_dirs-Grows os (path_text (account_dir p u)) t).keeps q n e in
        elim (Bool-cases (same_path q (password_file p u))) [
          | inl k ↦
              absurd
                (nothing (sym made_free ∙ rw ((same_path_iff q (password_file p u)).0 k) at stays))
          | inr k ↦ registered_other q k ∙ stays
        ]
      where
        nothing : none ≡ some n → ⊥
        nothing k = cc

    pub registered-Adds : Adds p u pw t registered
    registered-Adds = record {
      tree = registered-IsTree;
      clear =
          IsClear-change (codes "accounts" ∷ p) made registered
            (λ q s l k. sym (registered_short q (omega arith)) ∙ k)
            (IsClear-Grows (codes "accounts" ∷ p)
              (make_dirs-Grows os (path_text (account_dir p u)) t) clear);
      home = registered_short (account_dir p u) (omega arith) ∙ made_home;
      holds =
          node_at-put_self (password_file p u) (file pw) (put (password_file p u) (file []) made)
            (λ e. cc);
      keeps = kept;
      beside = λ v other.
          registered_short (account_dir p v) (omega arith)
          ∙ make_dirs-Aside os (account_dir p v) u (codes "accounts" ∷ p) t kind whole (
            other_account p u v other,
            Aside-longer (account_dir p v) (codes "accounts" ∷ p) (omega arith),
          );
    }

    pub register_new : register_user os (path_text p) u pw t ≡ (register_success, registered)
    register_new = λ i. (register_reply_new i, register_tree_new i)

-- REGISTER of an accepted name answers as the table does, and leaves the files of its new table.
pub register_user-Agrees :
    (os : Os) (kind : IsObliging os) (p : FilePath) (short : length (path_text p) < 256) (u : Bytes)
    (name : length u ≤ 255) (accepted : rejects_username u ≡ false) (pw : Bytes)
    (pass : IsPassword pw) (t : Tree) (r : Registry)
    → Represents p t r
    → Agrees p (register_user os (path_text p) u pw t) (enroll u pw (r u) r)
unfolding enroll
register_user-Agrees os kind p short u name accepted pw pass t r i = elim (Option-cases (r u)) [
  | inl e ↦
      let new = i.absent u accepted e in
      rw (e, register_new os kind p short u name accepted pw t i.tree i.clear new)
        (record {
          reply = refl;
          files =
              Adds-Represents p u pw t _ r
                (registered-Adds os kind p short u name accepted pw t i.tree i.clear new) pass i;
        })
  | inr (q, e) ↦
      rw
        (
          e,
          register_taken os kind p short u name accepted pw t i.tree i.clear
              (i.home u q accepted e),
        )
        (record { reply = refl; files = i })
]
