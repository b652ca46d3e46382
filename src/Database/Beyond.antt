-- ===== src/Database/Beyond.antt =====
-- `make_dirs` makes nothing but the path that it is given, and what is above it.
use thing.Prelude.{ℕ, ◌≡◌, ◌<◌, ap, ◌∙◌, false, [], ◌∷◌, length, arith, Bool-cases, inl, inr, Bytes}
use thing.CString.{is_empty}
use thing.Files.{FilePath, directory, Tree, Os, resolve, node_at, same_path, mkdir, stat}
use thing.Files.Laws.{mkdir-made, mkdir-failed, root_ne, node_at-put}
use thing.Files.Resolve.{same_path_iff}
use thing.Files.Writes.{IsObliging}
use thing.Database.{make_dir, make_dirs, below}
use thing.Database.MakeDirs.{make_dirs_lem}
use thing.Database.Success.{
  path_text, IsClear, resolve-path_text, parent_text-path_text, make_dirs_succeeds, below-made,
  is_empty-entry,
}

pub longer : (r p : FilePath) → length p < length r → same_path r p ≡ false
longer r p h = elim (Bool-cases (same_path r p)) [
  | inl e ↦ absurd (omega (arith, ap {B = ℕ} length ((same_path_iff r p).0 e)))
  | inr e ↦ e
]

-- `r` is neither the path nor one above it.
abbrev pub Aside : FilePath → FilePath → Type 0
Aside r [] = Unit
Aside r (n ∷ p) = (same_path r (n ∷ p) ≡ false) × Aside r p

pub Aside-longer : (r p : FilePath) → length p < length r → Aside r p
Aside-longer r [] h = tt
Aside-longer r (n ∷ p) h = (longer r (n ∷ p) h, Aside-longer r p (omega arith))

module _ (os : Os) (r : FilePath) where
  mkdir_aside :
      (path : Bytes) (t : Tree)
      → same_path r (resolve path) ≡ false
      → node_at r (mkdir os path t).1 ≡ node_at r t
  mkdir_aside path t h = elim (Bool-cases (mkdir os path t).0) [
    | inl e ↦
        let (eq, fresh, home) = mkdir-made os path t e in
        rw (eq, node_at-put r (resolve path) directory t (root_ne os (resolve path) t fresh), h)
    | inr e ↦ rw (mkdir-failed os path t e)
  ]

  make_dir_aside :
      (path : Bytes) (t : Tree)
      → same_path r (resolve path) ≡ false
      → node_at r (make_dir os path t).1 ≡ node_at r t
  unfolding make_dir
  make_dir_aside path t h = elim (Bool-cases (stat os path t)) [
    | inl e ↦ rw e
    | inr e ↦ rw e (mkdir_aside path t h)
  ]

  -- On a clear path, a path that is neither it nor above it holds what it held.
  pub make_dirs-Aside :
      (n : Bytes) (p : FilePath) (t : Tree)
      → IsObliging os
      → IsClear (n ∷ p) t
      → Aside r (n ∷ p)
      → node_at r (make_dirs os (path_text (n ∷ p)) t).1 ≡ node_at r t
  make_dirs-Aside n [] t kind h l =
      let at : resolve (path_text (n ∷ [])) ≡ n ∷ [] = resolve-path_text (n ∷ []) t h in
      rw (make_dirs_lem os (path_text (n ∷ [])) t, parent_text-path_text n [] h.0)
        (unfold below path_text is_empty in make_dir_aside (path_text (n ∷ [])) t (rw at l.0))
  make_dirs-Aside n (m ∷ p) t kind h l =
      let (done, there) = make_dirs_succeeds os kind m p t h.2 in
      let u : Tree = (make_dirs os (path_text (m ∷ p)) t).1 in
      let at : resolve (path_text (n ∷ m ∷ p)) ≡ n ∷ m ∷ p = resolve-path_text (n ∷ m ∷ p) t h in
      rw (make_dirs_lem os (path_text (n ∷ m ∷ p)) t, parent_text-path_text n (m ∷ p) h.0)
        (rw
          (below-made os kind (path_text (n ∷ m ∷ p)) (path_text (m ∷ p))
            (make_dirs os (path_text (m ∷ p)) t) t
            (unfold path_text in is_empty-entry (path_text p) m) done)
          (make_dir_aside (path_text (n ∷ m ∷ p)) u (rw at l.0)
            ∙ make_dirs-Aside m p t kind h.2 l.1))

  -- So does a path of more names.
  pub make_dirs_beyond :
      (n : Bytes) (p : FilePath) (t : Tree)
      → IsObliging os
      → IsClear (n ∷ p) t
      → length (n ∷ p) < length r
      → node_at r (make_dirs os (path_text (n ∷ p)) t).1 ≡ node_at r t
  make_dirs_beyond n p t kind h l = make_dirs-Aside n p t kind h (Aside-longer r (n ∷ p) l)
