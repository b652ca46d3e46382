-- ===== src/Files/Structure.antt =====
-- The calls that change the tree keep every entry in a directory.
use thing.Prelude.{
  ◌≡◌, ◌≢◌, refl, sym, ap, ◌∙◌, Bool, true, false, Option, none, some, [], ◌∷◌, Bytes, arith,
  Bool-cases, Option-cases, ◌||◌, not, inl, inr, if◌then◌else◌, ℕ,
}
use thing.Files.Resolve.{same_path_iff}
use thing.Files.Laws.{
  IsTree, IsTree-put, node_at_root, root_ne, node_at-without_named, is_directory_eq,
}
use thing.Files.{
  FilePath, Node, directory, file, Tree, parent, resolve, same_path, find_node, node_at, put,
  without, is_child, has_child, is_directory, Os, opened, open_create, rmdir_call, overwritten,
  at_file, write, unlinked, unlink, rmdir, truncated, fopen_write, removed, remove,
}

-- A name below an empty directory, or below nothing, has no node.
childless : (k : Bytes) (p : FilePath) (t : Tree) → has_child p t ≡ false → node_at (k ∷ p) t ≡ none
unfolding has_child is_child node_at find_node same_path
childless k p [] h = refl
childless k p (([], n) ∷ t) h = childless k p t h
childless k p ((m ∷ q, n) ∷ t) h = elim (Bool-cases (same_path (k ∷ p) (m ∷ q))) [
  | inl e ↦
      let below : p ≡ q = ap parent ((same_path_iff (k ∷ p) (m ∷ q)).0 e) in
      ground (arith, same_path_iff p q)
  | inr e ↦ rw e (childless k p t (ground arith))
]

-- An entry without entries below it is taken out.
IsTree-without :
    (p : FilePath) (t : Tree)
    → ((k : Bytes) → node_at (k ∷ p) t ≡ none)
    → IsTree t
    → IsTree (without p t)
IsTree-without p t leaf w = record { inside = still }
  where
    stays :
        (q : FilePath) (k : Bytes)
        → node_at q t ≡ some directory
        → node_at (k ∷ q) t ≢ none
        → node_at q (without p t) ≡ some directory
    stays [] k d c = node_at_root (without p t)
    stays (m ∷ q) k d c = elim (Bool-cases (same_path (m ∷ q) p)) [
      | inl e ↦ absurd (c (rw ((same_path_iff (m ∷ q) p).0 e) (leaf k)))
      | inr e ↦ rw (node_at-without_named m q p t, e) d
    ]

    still :
        (q : FilePath) (n : Node)
        → node_at q (without p t) ≡ some n
        → node_at (parent q) (without p t) ≡ some directory
    still [] n h = node_at_root (without p t)
    still (k ∷ q) n h = elim (Bool-cases (same_path (k ∷ q) p)) [
      | inl e ↦ absurd (nothing (rw (node_at-without_named k q p t, e) at h))
      | inr e ↦
          let there = rw (node_at-without_named k q p t, e) at h in
          stays q k (w.inside (k ∷ q) n there) (λ g. nothing (sym g ∙ there))
    ]
      where
        nothing : {x : Node} → none ≡ some x → ⊥
        nothing g = cc

-- Below a file there is nothing.
file_leaf :
    (p : FilePath) (s : Bytes) (t : Tree)
    → node_at p t ≡ some (file s)
    → IsTree t
    → (k : Bytes) → node_at (k ∷ p) t ≡ none
file_leaf p s t e w k = elim (Option-cases (node_at (k ∷ p) t)) [
  | inl h ↦ h
  | inr (n, h) ↦ let d = w.inside (k ∷ p) n h in absurd (unlike (sym e ∙ d))
]
  where
    unlike : some (file s) ≡ some directory → ⊥
    unlike g = cc

module _ (os : Os) where
  opened-IsTree :
      (path : Bytes) (o : Option Node) (t : Tree)
      → node_at (resolve path) t ≡ o
      → IsTree t
      → IsTree (opened os path o t).1
  unfolding opened
  opened-IsTree path none t e w =
      elim (Bool-cases (is_directory (node_at (parent (resolve path)) t))) [
        | inl d ↦ rw d (
            IsTree-put (resolve path) (file []) t (root_ne os (resolve path) t e) (λ g. cc)
              (is_directory_eq _ d) w)
        | inr d ↦ rw d w
      ]
  opened-IsTree path (some directory) t e w = w
  opened-IsTree path (some (file s)) t e w = w

  if-IsTree :
      (b : Bool) (x y : Bool × Tree) → IsTree x.1 → IsTree y.1 → IsTree (if b then x else y).1
  if-IsTree true x y h k = h
  if-IsTree false x y h k = k

  if-IsTree_alone : (b : Bool) (x y : Tree) → IsTree x → IsTree y → IsTree (if b then x else y)
  if-IsTree_alone true x y h k = h
  if-IsTree_alone false x y h k = k

  pub open_create-IsTree : (path : Bytes) (t : Tree) → IsTree t → IsTree (open_create os path t).1
  unfolding open_create
  open_create-IsTree path t w =
      if-IsTree _ _ _ w (opened-IsTree path (node_at (resolve path) t) t refl w)

  -- A new text in the place of a file.
  refilled-IsTree :
      (p : FilePath) (old new : Bytes) (t : Tree)
      → node_at p t ≡ some (file old)
      → IsTree t
      → IsTree (put p (file new) t)
  refilled-IsTree p old new t e w =
      IsTree-put p (file new) t (λ r. unlike (sym (node_at_root t) ∙ rw r at e))
        (λ d. unlike (sym d ∙ e)) (w.inside p (file old) e) w
    where
      unlike : some directory ≡ some (file old) → ⊥
      unlike g = cc

  overwritten-IsTree :
      (k : Option ℕ) (path text : Bytes) (n : Node) (t : Tree)
      → node_at (resolve path) t ≡ some n
      → IsTree t
      → IsTree (overwritten os k path text n t).1
  unfolding overwritten
  overwritten-IsTree none path text n t e w = w
  overwritten-IsTree (some k) path text directory t e w = w
  overwritten-IsTree (some k) path text (file old) t e w =
      refilled-IsTree (resolve path) old _ t e w

  at_file-IsTree :
      (o : Option Node) (path text : Bytes) (t : Tree)
      → node_at (resolve path) t ≡ o
      → IsTree t
      → IsTree (at_file os o path text t).1
  unfolding at_file
  at_file-IsTree none path text t e w = w
  at_file-IsTree (some n) path text t e w =
      overwritten-IsTree (os.accepts path text t) path text n t e w

  pub write-IsTree : (path text : Bytes) (t : Tree) → IsTree t → IsTree (write os path text t).1
  unfolding write
  write-IsTree path text t w = at_file-IsTree (node_at (resolve path) t) path text t refl w

  unlinked-IsTree :
      (o : Option Node) (p : FilePath) (t : Tree)
      → node_at p t ≡ o
      → IsTree t
      → IsTree (unlinked os o p t)
  unfolding unlinked
  unlinked-IsTree none p t e w = w
  unlinked-IsTree (some directory) p t e w = w
  unlinked-IsTree (some (file s)) p t e w = IsTree-without p t (file_leaf p s t e w) w

  pub unlink-IsTree : (path : Bytes) (t : Tree) → IsTree t → IsTree (unlink os path t)
  unfolding unlink
  unlink-IsTree path t w =
      if-IsTree_alone _ _ _ w (unlinked-IsTree (node_at (resolve path) t) (resolve path) t refl w)

  pub rmdir-IsTree : (path : Bytes) (t : Tree) → IsTree t → IsTree (rmdir os path t)
  unfolding rmdir
  rmdir-IsTree path t w =
      elim (Bool-cases (
        os.refuses rmdir_call path t
        || not (is_directory (node_at (resolve path) t))
        || has_child (resolve path) t)) [
          | inl e ↦ rw e w
          | inr e ↦
              rw e (
                IsTree-without (resolve path) t (λ k. childless k (resolve path) t (ground arith))
                  w)
        ]

  truncated-IsTree :
      (o : Option Node) (p : FilePath) (t : Tree)
      → node_at p t ≡ o
      → IsTree t
      → IsTree (truncated os o p t).1
  unfolding truncated
  truncated-IsTree none p t e w = elim (Bool-cases (is_directory (node_at (parent p) t))) [
    | inl d ↦ rw d (IsTree-put p (file []) t (root_ne os p t e) (λ g. cc) (is_directory_eq _ d) w)
    | inr d ↦ rw d w
  ]
  truncated-IsTree (some directory) p t e w = w
  truncated-IsTree (some (file s)) p t e w = refilled-IsTree p s [] t e w

  pub fopen_write-IsTree : (path : Bytes) (t : Tree) → IsTree t → IsTree (fopen_write os path t).1
  unfolding fopen_write
  fopen_write-IsTree path t w =
      if-IsTree _ _ _ w (truncated-IsTree (node_at (resolve path) t) (resolve path) t refl w)

  removed-IsTree :
      (o : Option Node) (p : FilePath) (t : Tree)
      → node_at p t ≡ o
      → IsTree t
      → IsTree (removed os o p t)
  unfolding removed
  removed-IsTree none p t e w = w
  removed-IsTree (some directory) p t e w = elim (Bool-cases (has_child p t)) [
    | inl h ↦ rw h w
    | inr h ↦ rw h (IsTree-without p t (λ k. childless k p t h) w)
  ]
  removed-IsTree (some (file s)) p t e w = IsTree-without p t (file_leaf p s t e w) w

  pub remove-IsTree : (path : Bytes) (t : Tree) → IsTree t → IsTree (remove os path t)
  unfolding remove
  remove-IsTree path t w =
      if-IsTree_alone _ _ _ w (removed-IsTree (node_at (resolve path) t) (resolve path) t refl w)
