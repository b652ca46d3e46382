-- ===== src/Files/Writes.antt =====
-- The calls that write files, on a system that refuses nothing.
use thing.Prelude.{
  ℕ, zero, suc, ◌≡◌, ◌≢◌, refl, true, false, Option, none, some, [], ◌∷◌, ◌++◌, Bytes, length, take,
  drop, take_all, arith, append-nil,
}
use thing.CString.{is_empty}
use thing.Files
use thing.Files.Laws.{node_at-without}
use thing.Files.Resolve.{same_path_refl}
use thing.Files.{
  Node, directory, file, FilePath, Tree, parent, resolve, node_at, put, without, is_there,
  is_directory, Call, access_call, Os, access, open_create, open_read, opened, read, write,
  overwritten, contents, mkdir, stat, truncated, fopen_write, removed, remove,
}

-- A system that refuses no call, and writes all that it is given.
pub record IsObliging (os : Os) : Type 0 where
  pub grants : (c : Call) (path : Bytes) (t : Tree) → os.refuses c path t ≡ false
  pub writes : (path s : Bytes) (t : Tree) → os.accepts path s t ≡ some (length s)

gone : (p : FilePath) (t : Tree) → p ≢ [] → node_at p (without p t) ≡ none
gone p t ne = rw (node_at-without p p t ne, same_path_refl p)

drop-nil : (n : ℕ) → drop {A = ℕ} n [] ≡ []
drop-nil zero = refl
drop-nil (suc n) = refl

is_empty-resolve : (path : Bytes) → resolve path ≢ [] → is_empty path ≡ false
unfolding is_empty resolve
is_empty-resolve [] h = absurd (h (unfold Files.components Files.walk Files.enter in refl))
is_empty-resolve (c ∷ s) h = refl

module _ (os : Os) where
  opened_new :
      (path : Bytes) (o : Option Node) (t : Tree)
      → ((s : Bytes) → o ≢ some (file s))
      → (opened os path o t).0 ≡ true
      → (opened os path o t).1 ≡ put (resolve path) (file []) t
  unfolding opened
  opened_new path none t fresh h = ground arith
  opened_new path (some directory) t fresh h = cc
  opened_new path (some (file s)) t fresh h = absurd (fresh s refl)

  -- A file that is created anew is empty.
  pub open_create_new :
      (path : Bytes) (t : Tree)
      → ((s : Bytes) → node_at (resolve path) t ≢ some (file s))
      → (open_create os path t).0 ≡ true
      → (open_create os path t).1 ≡ put (resolve path) (file []) t
  unfolding open_create
  open_create_new path t fresh h =
      ground (arith, opened_new path (node_at (resolve path) t) t fresh)

module _ (os : Os) (kind : IsObliging os) where
  pub access_iff :
      (path : Bytes) (t : Tree)
      → resolve path ≢ []
      → access os path t ≡ is_there (node_at (resolve path) t)
  unfolding access
  access_iff path t ne = ground (arith, kind.grants access_call path t, is_empty-resolve path ne)

  pub open_read_iff :
      (path : Bytes) (t : Tree)
      → resolve path ≢ []
      → open_read os path t ≡ is_there (node_at (resolve path) t)
  unfolding open_read
  open_read_iff path t ne = rw (kind.grants, is_empty-resolve path ne)

  pub read_file :
      (path : Bytes) (size : ℕ) (t : Tree) (s : Bytes)
      → node_at (resolve path) t ≡ some (file s)
      → read os path size t ≡ some (take size s)
  unfolding read contents
  read_file path size t s e = rw (kind.grants, e)

  -- Writing a new file leaves it with the text.
  pub write_new :
      (path s : Bytes) (t : Tree)
      → node_at (resolve path) t ≡ some (file [])
      → write os path s t ≡ (true, put (resolve path) (file s) t)
  unfolding write overwritten
  write_new path s t e =
      rw (e, kind.writes path s t, take_all (length s) s (omega arith), drop-nil, append-nil)

  pub stat_iff :
      (path : Bytes) (t : Tree)
      → resolve path ≢ []
      → stat os path t ≡ is_there (node_at (resolve path) t)
  unfolding stat
  stat_iff path t ne = rw (kind.grants, is_empty-resolve path ne)

  -- A new directory in one that is there.
  pub mkdir_new :
      (path : Bytes) (t : Tree)
      → resolve path ≢ []
      → node_at (resolve path) t ≡ none
      → node_at (parent (resolve path)) t ≡ some directory
      → mkdir os path t ≡ (true, put (resolve path) directory t)
  unfolding mkdir
  mkdir_new path t ne e home =
      rw (kind.grants, is_empty-resolve path ne, e, home) (unfold is_there is_directory in refl)

  truncated_made :
      (o : Option Node) (p : FilePath) (t : Tree)
      → (truncated os o p t).0 ≡ true
      → (truncated os o p t).1 ≡ put p (file []) t
  unfolding truncated
  truncated_made none p t h = ground arith
  truncated_made (some directory) p t h = cc
  truncated_made (some (file s)) p t h = refl

  -- `fopen` for writing leaves an empty file.
  pub fopen_write-made :
      (path : Bytes) (t : Tree)
      → (fopen_write os path t).0 ≡ true
      → (fopen_write os path t).1 ≡ put (resolve path) (file []) t
  unfolding fopen_write
  fopen_write-made path t h =
      ground (arith, truncated_made (node_at (resolve path) t) (resolve path) t)

  removed_file :
      (o : Option Node) (p : FilePath) (t : Tree) (s : Bytes)
      → p ≢ []
      → node_at p t ≡ o
      → node_at p (removed os o p t) ≢ some (file s)
  unfolding removed
  removed_file none p t s ne e h = cc (e, h)
  removed_file (some directory) p t s ne e h = ground (arith, gone p t ne)
  removed_file (some (file x)) p t s ne e h = cc (gone p t ne)

  -- After `remove` there is no file.
  pub remove_file :
      (path : Bytes) (t : Tree) (s : Bytes)
      → resolve path ≢ []
      → node_at (resolve path) (remove os path t) ≢ some (file s)
  unfolding remove
  remove_file path t s ne =
      rw kind.grants (removed_file (node_at (resolve path) t) (resolve path) t s ne refl)

  -- A new file in a directory.
  pub open_create_makes :
      (path : Bytes) (t : Tree)
      → resolve path ≢ []
      → node_at (resolve path) t ≡ none
      → node_at (parent (resolve path)) t ≡ some directory
      → open_create os path t ≡ (true, put (resolve path) (file []) t)
  unfolding open_create opened
  open_create_makes path t ne e home =
      rw (kind.grants, is_empty-resolve path ne, e, home) (unfold is_directory in refl)

  -- Writing to a file that is there leaves what stood behind the text.
  pub write_over :
      (path s old : Bytes) (t : Tree)
      → node_at (resolve path) t ≡ some (file old)
      → write os path s t ≡ (true, put (resolve path) (file (s ++ drop (length s) old)) t)
  unfolding write overwritten
  write_over path s old t e = rw (e, kind.writes path s t, take_all (length s) s (omega arith))

  pub open_create_there :
      (path old : Bytes) (t : Tree)
      → resolve path ≢ []
      → node_at (resolve path) t ≡ some (file old)
      → open_create os path t ≡ (true, t)
  unfolding open_create opened
  open_create_there path old t ne e = rw (kind.grants, is_empty-resolve path ne, e)
