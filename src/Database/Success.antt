-- ===== src/Database/Success.antt =====
-- When `make_dirs` succeeds, and what `expand_path` keeps.
use thing.Prelude.{
  ℕ, ◌≡◌, ◌≢◌, ◌<◌, refl, sym, ap, ◌∙◌, Bool, true, false, Option, none, some, [], ◌∷◌, ◌++◌, Bytes,
  All, length, length-append, arith, Option-cases, inl, inr,
}
use thing.CString.{contains, is_empty}
use thing.Files.{
  FilePath, directory, file, Tree, resolve, node_at, put, Os, stat, mkdir, is_there, components,
  walk, enter,
}
use thing.Files.Laws.{Grows, node_at_root, node_at-put_self}
use thing.Files.Resolve.{IsPlain, resolve_entry}
use thing.Files.Writes.{IsObliging, stat_iff, mkdir_new}
use thing.Database.{
  max_path_length, parent_text, make_dir, below, make_dirs, expand_path, fitted, expand_home,
}
use thing.Database.MakeDirs.{make_dirs_lem, make_dirs-Grows}

-- The absolute path text of a path.
unfoldable pub path_text : FilePath → Bytes
path_text [] = []
path_text (n ∷ p) = path_text p ++ b'/' ∷ n

-- The names are plain, and no prefix of the path is a file.
abbrev pub IsClear : FilePath → Tree → Type 0
IsClear [] t = Unit
IsClear (n ∷ p) t = IsPlain n × ((s : Bytes) → node_at (n ∷ p) t ≢ some (file s)) × IsClear p t

pub resolve-path_text : (p : FilePath) (t : Tree) → IsClear p t → resolve (path_text p) ≡ p
unfolding path_text
resolve-path_text [] t h = unfold resolve components walk enter is_empty in refl
resolve-path_text (n ∷ p) t (h, f, k) =
    resolve_entry (path_text p) n h ∙ ap (◌∷◌ n) (resolve-path_text p t k)

contains_none : (s : Bytes) → All (λ c. c ≢ b'/') s → contains b'/' s ≡ false
unfolding contains
contains_none [] h = refl
contains_none (c ∷ s) (h, t) = ground (arith, contains_none s t)

contains-slash : (s n : Bytes) → contains b'/' (s ++ b'/' ∷ n) ≡ true
unfolding contains
contains-slash [] n = refl
contains-slash (c ∷ s) n = ground (arith, contains-slash s n)

parent_text_alone : (c : ℕ) (s : Bytes) → All (λ c. c ≢ b'/') s → parent_text (c ∷ s) ≡ []
unfolding parent_text
parent_text_alone c s h = rw (contains_none s h)

parent_text-entry :
    (c : ℕ) (s n : Bytes) → All (λ c. c ≢ b'/') n → parent_text ((c ∷ s) ++ b'/' ∷ n) ≡ c ∷ s
unfolding parent_text
parent_text-entry c [] n h = rw (contains_none n h)
parent_text-entry c (d ∷ s) n h =
    rw (contains-slash (d ∷ s) n) (ap (◌∷◌ c) (parent_text-entry d s n h))

pub parent_text-path_text :
    (n : Bytes) (p : FilePath) → IsPlain n → parent_text (path_text (n ∷ p)) ≡ path_text p
unfolding path_text
parent_text-path_text n p h = go (path_text p)
  where
    go : (s : Bytes) → parent_text (s ++ b'/' ∷ n) ≡ s
    go [] = parent_text_alone b'/' n h.no_slash
    go (c ∷ s) = parent_text-entry c s n h.no_slash

pub IsClear-Grows : {t u : Tree} (p : FilePath) → Grows t u → IsClear p t → IsClear p u
IsClear-Grows [] g h = tt
IsClear-Grows {t} {u} (n ∷ p) g (h, f, k) = (h, still, IsClear-Grows p g k)
  where
    still : (s : Bytes) → node_at (n ∷ p) u ≢ some (file s)
    still s e = elim (Option-cases (node_at (n ∷ p) t)) [
      | inl none_at ↦ elim (g.adds (n ∷ p) none_at) [ inl a ↦ cc | inr b ↦ cc ]
      | inr (m, some_at) ↦ f s (some_at ∙ sym (g.keeps (n ∷ p) m some_at) ∙ e)
    ]

pub is_empty-entry : (s n : Bytes) → is_empty (s ++ b'/' ∷ n) ≡ false
unfolding is_empty
is_empty-entry [] n = refl
is_empty-entry (c ∷ s) n = refl

module _ (os : Os) (kind : IsObliging os) where
  make_dir_clear :
      (n : Bytes) (p : FilePath) (t : Tree)
      → IsClear (n ∷ p) t
      → node_at p t ≡ some directory
      → ((make_dir os (path_text (n ∷ p)) t).0 ≡ true)
        × (node_at (n ∷ p) (make_dir os (path_text (n ∷ p)) t).1 ≡ some directory)
  unfolding make_dir
  make_dir_clear n p t h home =
      let x = path_text (n ∷ p) in
      let at : resolve x ≡ n ∷ p = resolve-path_text (n ∷ p) t h in
      let ne : resolve x ≢ [] = λ e. cc (at) in
      elim (Option-cases (node_at (n ∷ p) t)) [
        | inl e ↦
            let old : stat os x t ≡ false =
              stat_iff os kind x t ne ∙ rw (at, e) (unfold is_there in refl) in
            let new : mkdir os x t ≡ (true, put (n ∷ p) directory t) =
              mkdir_new os kind x t ne (rw at e) (rw at home) ∙ rw at in
            rw (old, new) (refl, node_at-put_self (n ∷ p) directory t (λ k. cc))
        | inr (directory, e) ↦
            let old : stat os x t ≡ true =
              stat_iff os kind x t ne ∙ rw (at, e) (unfold is_there in refl) in
            rw old (refl, e)
        | inr (file s, e) ↦ absurd (h.1 s e)
      ]

  pub below-made :
      (path dir : Bytes) (made : Bool × Tree) (t : Tree)
      → is_empty dir ≡ false
      → made.0 ≡ true
      → below os path dir made t ≡ make_dir os path made.1
  unfolding below
  below-made path dir (true, u) t e h = rw e
  below-made path dir (false, u) t e h = cc

  pub make_dirs_succeeds :
      (n : Bytes) (p : FilePath) (t : Tree)
      → IsClear (n ∷ p) t
      → ((make_dirs os (path_text (n ∷ p)) t).0 ≡ true)
        × (node_at (n ∷ p) (make_dirs os (path_text (n ∷ p)) t).1 ≡ some directory)
  make_dirs_succeeds n [] t h =
      rw (make_dirs_lem os (path_text (n ∷ [])) t, parent_text-path_text n [] h.0)
        (unfold below path_text is_empty in make_dir_clear n [] t h (node_at_root t))
  make_dirs_succeeds n (m ∷ p) t h =
      let (done, there) = make_dirs_succeeds m p t h.2 in
      let u : Tree = (make_dirs os (path_text (m ∷ p)) t).1 in
      let clear = IsClear-Grows (n ∷ m ∷ p) (make_dirs-Grows os (path_text (m ∷ p)) t) h in
      rw (make_dirs_lem os (path_text (n ∷ m ∷ p)) t, parent_text-path_text n (m ∷ p) h.0)
        (rw
          (below-made (path_text (n ∷ m ∷ p)) (path_text (m ∷ p))
            (make_dirs os (path_text (m ∷ p)) t) t
            (unfold path_text in is_empty-entry (path_text p) m) done)
          (make_dir_clear n (m ∷ p) u clear there))

  -- On a system that refuses nothing, and for the absolute text of a path of at least one name, all of
  -- them plain, of which no prefix is a file: `make_dirs` ends with success, with a directory at the
  -- path; every node that was there is as it was, and what is new is a directory.
  pub make_dirs_makes :
      (n : Bytes) (p : FilePath) (t : Tree)
      → IsClear (n ∷ p) t
      → ((make_dirs os (path_text (n ∷ p)) t).0 ≡ true)
        × (node_at (n ∷ p) (make_dirs os (path_text (n ∷ p)) t).1 ≡ some directory)
        × Grows t (make_dirs os (path_text (n ∷ p)) t).1
  make_dirs_makes n p t h =
      let (done, there) = make_dirs_succeeds n p t h in
      (done, there, make_dirs-Grows os (path_text (n ∷ p)) t)

-- If `datadir` fits its buffer of 256 bytes, with the NUL, before `expand_path`, it fits after it,
-- whatever the variable HOME and the path.
pub length-expand_path-lt :
    (home : Option Bytes) (datadir path : Bytes)
    → length datadir < max_path_length
    → length (expand_path home datadir path) < max_path_length
unfolding expand_path fitted expand_home
length-expand_path-lt home datadir [] h = ground arith
length-expand_path-lt none datadir (c ∷ path) h = ground arith
length-expand_path-lt (some dir) datadir (c ∷ path) h = ground (arith, length-append {0} dir path)
