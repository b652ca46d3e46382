-- ===== src/Files.antt =====
-- The file system, as far as the program's system calls show it: a tree of directories and files.
-- The operating system may refuse any call (`Os.refuses`) and may write less than it is given.
-- There are no symbolic links, `..` goes up from the name before it, and a relative path starts
-- at the root.
pub mod Resolve
pub mod Laws
pub mod Writes
pub mod Elsewhere
pub mod Structure
use thing.Prelude.{
  ℕ, zero, suc, Bool, true, false, not, ◌&&◌, ◌||◌, Option, none, some, List, [], ◌∷◌, ◌++◌, Bytes,
  take, drop, length, codes, ◌==◌, if◌then◌else◌,
}
use thing.CString.{same, is_empty}

-- The names from the root to a node, the last one first.
abbrev pub FilePath : Type 0
FilePath = List Bytes

pub data Node : Type 0 where
  directory : Node
  file : Bytes → Node

-- The nodes below the root, which is always there.
abbrev pub Tree : Type 0
Tree = List (FilePath × Node)

-- The pieces of a path text between its slashes.
onto_first : ℕ → List Bytes → List Bytes
onto_first c [] = (c ∷ []) ∷ []
onto_first c (w ∷ ws) = (c ∷ w) ∷ ws

unfoldable pub components : Bytes → List Bytes
unfolding onto_first
components [] = [] ∷ []
components (c ∷ s) = let rest = components s in if c == b'/' then [] ∷ rest else onto_first c rest

abbrev pub parent : FilePath → FilePath
parent [] = []
parent (n ∷ p) = p

-- One name of a path, from a directory.
unfoldable pub enter : FilePath → Bytes → FilePath
enter p name =
    if is_empty name || same name (codes ".")
    then p
    else if same name (codes "..")
    then parent p
    else name ∷ p

unfoldable pub walk : FilePath → List Bytes → FilePath
walk p [] = p
walk p (n ∷ ns) = walk (enter p n) ns

unfoldable pub resolve : Bytes → FilePath
resolve path = walk [] (components path)

unfoldable pub same_path : FilePath → FilePath → Bool
same_path [] [] = true
same_path (m ∷ p) (n ∷ q) = same m n && same_path p q
same_path _ _ = false

find_node : FilePath → Tree → Option Node
find_node p [] = none
find_node p ((q, n) ∷ t) = if same_path p q then some n else find_node p t

unfoldable pub node_at : FilePath → Tree → Option Node
unfolding find_node
node_at [] t = some directory
node_at (n ∷ p) t = find_node (n ∷ p) t

unfoldable pub put : FilePath → Node → Tree → Tree
put p n t = (p, n) ∷ t

unfoldable pub without : FilePath → Tree → Tree
without p [] = []
without p ((q, n) ∷ t) = let rest = without p t in if same_path p q then rest else (q, n) ∷ rest

is_child : FilePath → FilePath → Bool
is_child p [] = false
is_child p (n ∷ q) = same_path p q

unfoldable pub has_child : FilePath → Tree → Bool
unfolding is_child
has_child p [] = false
has_child p ((q, n) ∷ t) = is_child p q || has_child p t

unfoldable pub is_directory : Option Node → Bool
is_directory none = false
is_directory (some directory) = true
is_directory (some (file s)) = false

unfoldable pub is_there : Option Node → Bool
is_there none = false
is_there (some n) = true

pub data Call : Type 0 where
  access_call stat_call mkdir_call open_call read_call unlink_call rmdir_call fopen_call : Call
  remove_call : Call

-- What the program does not decide: which calls fail beyond what the tree says, how many bytes a
-- write takes (`none` is its failure), and what a shell command does (`true` is status 0).
pub record Os : Type 0 where
  pub refuses : Call → Bytes → Tree → Bool
  pub accepts : Bytes → Bytes → Tree → Option ℕ
  pub system : Bytes → Tree → Bool × Tree

module _ (os : Os) where
  -- `access(path, F_OK) != -1`
  unfoldable pub access : Bytes → Tree → Bool
  access path t =
      not (os.refuses access_call path t)
      && not (is_empty path)
      && is_there (node_at (resolve path) t)

  -- `stat(path, &st) == 0`
  unfoldable pub stat : Bytes → Tree → Bool
  stat path t =
      not (os.refuses stat_call path t)
      && not (is_empty path)
      && is_there (node_at (resolve path) t)

  -- `mkdir(path, 0700) != -1`
  unfoldable pub mkdir : Bytes → Tree → Bool × Tree
  mkdir path t =
      if os.refuses mkdir_call path t
        || is_empty path
        || is_there (node_at (resolve path) t)
        || not (is_directory (node_at (parent (resolve path)) t))
      then (false, t)
      else (true, put (resolve path) directory t)

  opened : Bytes → Option Node → Tree → Bool × Tree
  opened path none t =
      if is_directory (node_at (parent (resolve path)) t)
      then (true, put (resolve path) (file []) t)
      else (false, t)
  opened path (some directory) t = (false, t)
  opened path (some (file s)) t = (true, t)

  -- `open(path, O_WRONLY | O_CREAT, 0600) != -1`
  unfoldable pub open_create : Bytes → Tree → Bool × Tree
  unfolding opened
  open_create path t =
      if os.refuses open_call path t || is_empty path
      then (false, t)
      else opened path (node_at (resolve path) t) t

  -- `open(path, O_RDONLY) != -1`
  unfoldable pub open_read : Bytes → Tree → Bool
  open_read path t =
      not (os.refuses open_call path t)
      && not (is_empty path)
      && is_there (node_at (resolve path) t)

  overwritten : Option ℕ → Bytes → Bytes → Node → Tree → Bool × Tree
  overwritten none path text n t = (false, t)
  overwritten (some k) path text directory t = (false, t)
  overwritten (some k) path text (file old) t =
      let new = take k text in (true, put (resolve path) (file (new ++ drop (length new) old)) t)

  at_file : Option Node → Bytes → Bytes → Tree → Bool × Tree
  at_file none path text t = (false, t)
  at_file (some n) path text t = overwritten (os.accepts path text t) path text n t

  -- `write(fd, text, strlen(text)) != -1`, at the start of the open file of that path.
  unfoldable pub write : Bytes → Bytes → Tree → Bool × Tree
  unfolding overwritten at_file
  write path text t = at_file (node_at (resolve path) t) path text t

  contents : Option Node → Option Bytes
  contents none = none
  contents (some directory) = none
  contents (some (file s)) = some s

  -- `read(fd, buffer, size)`: the bytes read, or `none` for -1.
  unfoldable pub read : Bytes → ℕ → Tree → Option Bytes
  unfolding contents
  read path size t =
      if os.refuses read_call path t
      then none
      else elim (contents (node_at (resolve path) t)) [ none ↦ none | some s ↦ some (take size s) ]

  unlinked : Option Node → FilePath → Tree → Tree
  unlinked (some (file s)) p t = without p t
  unlinked _ p t = t

  unfoldable pub unlink : Bytes → Tree → Tree
  unfolding unlinked
  unlink path t =
      if os.refuses unlink_call path t
      then t
      else unlinked (node_at (resolve path) t) (resolve path) t

  unfoldable pub rmdir : Bytes → Tree → Tree
  rmdir path t =
      if os.refuses rmdir_call path t
        || not (is_directory (node_at (resolve path) t))
        || has_child (resolve path) t
      then t
      else without (resolve path) t

  truncated : Option Node → FilePath → Tree → Bool × Tree
  truncated none p t =
      if is_directory (node_at (parent p) t) then (true, put p (file []) t) else (false, t)
  truncated (some directory) p t = (false, t)
  truncated (some (file s)) p t = (true, put p (file []) t)

  -- `fopen(path, "w") != NULL`
  unfoldable pub fopen_write : Bytes → Tree → Bool × Tree
  unfolding truncated
  fopen_write path t =
      if os.refuses fopen_call path t || is_empty path
      then (false, t)
      else truncated (node_at (resolve path) t) (resolve path) t

  removed : Option Node → FilePath → Tree → Tree
  removed none p t = t
  removed (some directory) p t = if has_child p t then t else without p t
  removed (some (file s)) p t = without p t

  -- `remove(path)`
  unfoldable pub remove : Bytes → Tree → Tree
  unfolding removed
  remove path t =
      if os.refuses remove_call path t
      then t
      else removed (node_at (resolve path) t) (resolve path) t
