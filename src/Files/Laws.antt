-- ===== src/Files/Laws.antt =====
-- What the calls change in the tree, and what they leave alone.
use thing.Prelude.{
  ◌≡◌, ◌≢◌, ◌⊎◌, inl, inr, refl, true, false, Option, none, some, [], ◌∷◌, Bytes, arith, Bool-cases,
  if◌then◌else◌,
}
use thing.Files.Resolve.{same_path_iff, same_path_refl}
use thing.Files.{
  FilePath, Node, directory, file, Tree, parent, resolve, same_path, find_node, node_at, put,
  without, is_directory, is_there, Os, stat, mkdir,
}

-- The root is no entry of a tree, so a write at it would be lost.
pub node_at-put :
    (q p : FilePath) (n : Node) (t : Tree)
    → p ≢ []
    → node_at q (put p n t) ≡ (if same_path q p then some n else node_at q t)
unfolding node_at put same_path
node_at-put q [] n t h = absurd (h refl)
node_at-put [] (m ∷ p) n t h = refl
node_at-put (k ∷ q) (m ∷ p) n t h = refl

find_node-without :
    (q p : FilePath) (t : Tree)
    → find_node q (without p t) ≡ (if same_path q p then none else find_node q t)
unfolding find_node without
find_node-without q p [] = ground arith
find_node-without q p ((r, n) ∷ t) =
    ground (arith, find_node-without q p t, same_path_iff q p, same_path_iff p r, same_path_iff q r)

pub node_at-without_named :
    (k : Bytes) (q p : FilePath) (t : Tree)
    → node_at (k ∷ q) (without p t) ≡ (if same_path (k ∷ q) p then none else node_at (k ∷ q) t)
unfolding node_at
node_at-without_named k q p t = find_node-without (k ∷ q) p t

pub node_at-without :
    (q p : FilePath) (t : Tree)
    → p ≢ []
    → node_at q (without p t) ≡ (if same_path q p then none else node_at q t)
unfolding node_at
node_at-without q [] t h = absurd (h refl)
node_at-without [] (m ∷ p) t h = unfold same_path in refl
node_at-without (k ∷ q) (m ∷ p) t h = find_node-without (k ∷ q) (m ∷ p) t

pub node_at-put_self :
    (p : FilePath) (n : Node) (t : Tree) → p ≢ [] → node_at p (put p n t) ≡ some n
node_at-put_self p n t h = rw (node_at-put p p n t h, same_path_refl p)

pub node_at_root : (t : Tree) → node_at [] t ≡ some directory
unfolding node_at
node_at_root t = refl

-- From `t` to `u` only directories were added.
pub record Grows (t u : Tree) : Type 0 where
  pub keeps : (q : FilePath) (n : Node) → node_at q t ≡ some n → node_at q u ≡ some n
  pub adds :
      (q : FilePath) → node_at q t ≡ none → (node_at q u ≡ none) ⊎ (node_at q u ≡ some directory)

pub Grows-refl : (t : Tree) → Grows t t
Grows-refl t = record { keeps = λ q n h. h; adds = λ q h. inl h }

pub Grows-trans : {t u v : Tree} → Grows t u → Grows u v → Grows t v
Grows-trans g h = record {
  keeps = λ q n k. h.keeps q n (g.keeps q n k);
  adds = λ q k. elim (g.adds q k) [ inl e ↦ h.adds q e | inr e ↦ inr (h.keeps q directory e) ];
}

pub Grows-put : (p : FilePath) (t : Tree) → node_at p t ≡ none → Grows t (put p directory t)
Grows-put p t e = record {
  keeps = λ q n h. ground (arith, node_at-put q p directory t ne, same_path_iff q p);
  adds = λ q h. ground (arith, node_at-put q p directory t ne);
}
  where
    ne : p ≢ []
    ne h = ground (arith, node_at_root t)

-- Every entry stands in a directory.
pub record IsTree (t : Tree) : Type 0 where
  pub inside :
      (q : FilePath) (n : Node) → node_at q t ≡ some n → node_at (parent q) t ≡ some directory

pub is_directory_eq : (o : Option Node) → is_directory o ≡ true → o ≡ some directory
unfolding is_directory
is_directory_eq none h = cc
is_directory_eq (some directory) h = refl
is_directory_eq (some (file s)) h = cc

-- Where the node at `p` is no directory, writing one there leaves the directories as they were.
put_elsewhere :
    (q p : FilePath) (n : Node) (t : Tree)
    → p ≢ []
    → node_at p t ≢ some directory
    → node_at q t ≡ some directory
    → node_at q (put p n t) ≡ some directory
put_elsewhere q p n t ne fresh h = elim (Bool-cases (same_path q p)) [
  | inl e ↦ absurd (fresh (rw (← (same_path_iff q p).0 e) h))
  | inr e ↦ rw (node_at-put q p n t ne, e) h
]

-- A new entry, or a new node in place of a file, in a directory that is there.
pub IsTree-put :
    (p : FilePath) (n : Node) (t : Tree)
    → p ≢ []
    → node_at p t ≢ some directory
    → node_at (parent p) t ≡ some directory
    → IsTree t
    → IsTree (put p n t)
IsTree-put p n t ne fresh home w = record {
  inside = λ q m h. put_elsewhere (parent q) p n t ne fresh (inside_t q m h);
}
  where
    inside_t :
        (q : FilePath) (m : Node)
        → node_at q (put p n t) ≡ some m
        → node_at (parent q) t ≡ some directory
    inside_t q m h = elim (Bool-cases (same_path q p)) [
      | inl e ↦ rw ((same_path_iff q p).0 e) home
      | inr e ↦ w.inside q m (rw (node_at-put q p n t ne, e) at h)
    ]

module _ (os : Os) where
  pub mkdir-made :
      (path : Bytes) (t : Tree)
      → (mkdir os path t).0 ≡ true
      → (mkdir os path t).1 ≡ put (resolve path) directory t
        × (node_at (resolve path) t ≡ none)
        × (node_at (parent (resolve path)) t ≡ some directory)
  unfolding mkdir is_there
  mkdir-made path t h =
      let home = is_directory_eq (node_at (parent (resolve path)) t) in ground (arith, home)

  pub mkdir-failed :
      (path : Bytes) (t : Tree) → (mkdir os path t).0 ≡ false → (mkdir os path t).1 ≡ t
  unfolding mkdir
  mkdir-failed path t h = ground arith

  pub stat-there :
      (path : Bytes) (t : Tree) → stat os path t ≡ true → is_there (node_at (resolve path) t) ≡ true
  unfolding stat
  stat-there path t h = ground arith

  pub root_ne : (p : FilePath) (t : Tree) → node_at p t ≡ none → p ≢ []
  root_ne p t e h = ground (arith, node_at_root t)

  pub mkdir-Grows : (path : Bytes) (t : Tree) → Grows t (mkdir os path t).1
  mkdir-Grows path t = elim (Bool-cases (mkdir os path t).0) [
    | inl e ↦
        let (eq, fresh, home) = mkdir-made path t e in rw eq (Grows-put (resolve path) t fresh)
    | inr e ↦ rw (mkdir-failed path t e) (Grows-refl t)
  ]

  pub mkdir-IsTree : (path : Bytes) (t : Tree) → IsTree t → IsTree (mkdir os path t).1
  mkdir-IsTree path t w = elim (Bool-cases (mkdir os path t).0) [
    | inl e ↦
        let (eq, fresh, home) = mkdir-made path t e in
        rw eq
          (IsTree-put (resolve path) directory t (root_ne (resolve path) t fresh) (λ d. cc) home w)
    | inr e ↦ rw (mkdir-failed path t e) w
  ]
