-- ===== src/Database/MakeDirs.antt =====
-- `make_dirs` of src/server/database.c: it ends, it creates what it says, and it changes nothing else.
use thing.Prelude.{
  ℕ, zero, suc, ◌<◌, ◌≡◌, ◌≢◌, inl, inr, refl, ap, Bool, true, false, none, [], ◌∷◌, Bytes, length,
  arith, Bool-cases, if◌then◌else◌,
}
use thing.CString.{is_empty}
use thing.Files.{Tree, directory, resolve, node_at, is_there, Os, stat, mkdir}
use thing.Files.Laws.{
  Grows, Grows-refl, Grows-trans, IsTree, mkdir-Grows, mkdir-IsTree, mkdir-made, node_at-put_self,
  stat-there, node_at_root,
}
use thing.Database.{parent_text, make_dir, below, make_dirs_on, make_dirs}

pub parent_text-shorter : (c : ℕ) (s : Bytes) → length (parent_text (c ∷ s)) < length (c ∷ s)
unfolding parent_text
parent_text-shorter c [] = ground arith
parent_text-shorter c (d ∷ s) = ground (arith, parent_text-shorter d s)

module _ (os : Os) where
  enough_fuel :
      (f g : ℕ) (path : Bytes) (t : Tree)
      → length path < f
      → length path < g
      → make_dirs_on os f path t ≡ make_dirs_on os g path t
  unfolding make_dirs_on
  enough_fuel zero g path t h k = absurd (omega arith)
  enough_fuel (suc f) zero path t h k = absurd (omega arith)
  enough_fuel (suc f) (suc g) [] t h k = unfold below is_empty parent_text in refl
  enough_fuel (suc f) (suc g) (c ∷ s) t h k =
      let shorter = parent_text-shorter c s in
      ap (λ r. below os (c ∷ s) (parent_text (c ∷ s)) r t)
        (enough_fuel f g (parent_text (c ∷ s)) t (omega arith) (omega arith))

  -- `make_dirs` satisfies the equation of its C definition, with no fuel: it is `below` applied to
  -- the result of a full call on the parent text, on every path and tree.
  pub make_dirs_lem :
      (path : Bytes) (t : Tree)
      → make_dirs os path t ≡ below os path (parent_text path) (make_dirs os (parent_text path) t) t
  make_dirs_lem [] t = unfold make_dirs below is_empty parent_text in refl
  make_dirs_lem (c ∷ s) t =
      let shorter = parent_text-shorter c s in
      unfold make_dirs in
      ap (λ r. below os (c ∷ s) (parent_text (c ∷ s)) r t)
        (enough_fuel (length (c ∷ s)) (suc (length (parent_text (c ∷ s)))) (parent_text (c ∷ s)) t
          (omega arith) (omega arith))

  make_dir-Grows : (dir : Bytes) (t : Tree) → Grows t (make_dir os dir t).1
  unfolding make_dir
  make_dir-Grows dir t = elim (Bool-cases (stat os dir t)) [
    | inl e ↦ rw e (Grows-refl t)
    | inr e ↦ rw e (mkdir-Grows os dir t)
  ]

  make_dir-IsTree : (dir : Bytes) (t : Tree) → IsTree t → IsTree (make_dir os dir t).1
  unfolding make_dir
  make_dir-IsTree dir t w = elim (Bool-cases (stat os dir t)) [
    | inl e ↦ rw e w
    | inr e ↦ rw e (mkdir-IsTree os dir t w)
  ]

  -- Any property of trees that `make_dir` keeps.
  below-induction :
      (P : Tree → Type 0) (path dir : Bytes) (made : Bool × Tree) (t : Tree)
      → ((u : Tree) → P u → P (make_dir os path u).1)
      → P t
      → P made.1
      → P (below os path dir made t).1
  unfolding below
  below-induction P path dir (fine, u) t step h k = elim (Bool-cases (is_empty dir)) [
    | inl e ↦ rw e (step t h)
    | inr e ↦ rw e (go fine)
  ]
    where
      go : (b : Bool) → P (if b then make_dir os path u else (false, u)).1
      go true = step u k
      go false = k

  make_dirs_on-induction :
      (P : Tree → Type 0)
      → ((dir : Bytes) (u : Tree) → P u → P (make_dir os dir u).1)
      → (fuel : ℕ) (path : Bytes) (t : Tree) → P t
      → P (make_dirs_on os fuel path t).1
  unfolding make_dirs_on
  make_dirs_on-induction P step zero path t h = h
  make_dirs_on-induction P step (suc fuel) path t h =
      below-induction P path (parent_text path) (make_dirs_on os fuel (parent_text path) t) t
        (step path) h (make_dirs_on-induction P step fuel (parent_text path) t h)

  -- Whether it succeeds or fails, `make_dirs` only adds directories: every node stays as it is,
  -- and what is new is a directory.
  pub make_dirs-Grows : (path : Bytes) (t : Tree) → Grows t (make_dirs os path t).1
  unfolding make_dirs
  make_dirs-Grows path t =
      make_dirs_on-induction (λ u. Grows t u) (λ dir u g. Grows-trans g (make_dir-Grows dir u))
        (suc (length path)) path t (Grows-refl t)

  -- If every node is in a directory, every node is in a directory after `make_dirs`, whether it
  -- succeeds or fails.
  pub make_dirs-IsTree : (path : Bytes) (t : Tree) → IsTree t → IsTree (make_dirs os path t).1
  unfolding make_dirs
  make_dirs-IsTree path t w =
      make_dirs_on-induction IsTree make_dir-IsTree (suc (length path)) path t w

  mkdir-there :
      (path : Bytes) (t : Tree)
      → (mkdir os path t).0 ≡ true
      → is_there (node_at (resolve path) (mkdir os path t).1) ≡ true
  mkdir-there path t h =
      let (eq, fresh, home) = mkdir-made os path t h in
      let ne : resolve path ≢ [] = λ e. root_there (rw e at fresh) in
      rw (eq, node_at-put_self (resolve path) directory t ne) (unfold is_there in refl)
    where
      root_there : node_at [] t ≢ none
      root_there e = cc (node_at_root t)

  make_dir-there :
      (dir : Bytes) (t : Tree)
      → (make_dir os dir t).0 ≡ true
      → is_there (node_at (resolve dir) (make_dir os dir t).1) ≡ true
  unfolding make_dir
  make_dir-there dir t = elim (Bool-cases (stat os dir t)) [
    | inl e ↦ rw e (λ h. stat-there os dir t e)
    | inr e ↦ rw e (mkdir-there dir t)
  ]

  below-there :
      (path dir : Bytes) (made : Bool × Tree) (t : Tree)
      → (below os path dir made t).0 ≡ true
      → is_there (node_at (resolve path) (below os path dir made t).1) ≡ true
  unfolding below
  below-there path dir (fine, u) t = elim (Bool-cases (is_empty dir)) [
    | inl e ↦ rw e (make_dir-there path t)
    | inr e ↦ rw e (go fine)
  ]
    where
      go :
          (b : Bool)
          → (if b then make_dir os path u else (false, u)).0 ≡ true
          → is_there (node_at (resolve path) (if b then make_dir os path u else (false, u)).1)
            ≡ true
      go true h = make_dir-there path u h
      go false h = cc

  -- After `make_dirs` has succeeded there is a node at the path.
  pub make_dirs-there :
      (path : Bytes) (t : Tree)
      → (make_dirs os path t).0 ≡ true
      → is_there (node_at (resolve path) (make_dirs os path t).1) ≡ true
  make_dirs-there path t =
      rw (make_dirs_lem path t)
        (below-there path (parent_text path) (make_dirs os (parent_text path) t) t)
