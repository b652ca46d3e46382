-- ===== src/Database.antt =====
-- src/server/database.c: the data directory and the creation of directories.
pub mod MakeDirs
pub mod Success
pub mod Beyond
pub mod Startup
use thing.Prelude.{
  ℕ, zero, suc, ◌+◌, ◌-◌, Bool, true, false, not, ◌&&◌, ◌||◌, Option, none, some, List, [], ◌∷◌,
  ◌++◌, Bytes, length, drop, codes, ltb, ◌==◌, if◌then◌else◌,
}
use thing.CString.{contains, is_empty}
use thing.Files.{Tree, Os, stat, mkdir}

-- MAX_PATH_LENGTH, the size of `datadir`
abbrev pub max_path_length : ℕ
max_path_length = 256

-- DATABASE_DIR
abbrev pub database_dir : Bytes
database_dir = codes "~/.ripple"

pub fitted : Bytes → Bytes → Bytes
fitted datadir path = if ltb (length path) max_path_length then path else datadir

pub expand_home : Bytes → Option Bytes → Bytes → Bytes
expand_home datadir none rest = datadir
expand_home datadir (some home) rest =
    if ltb (length home + (length rest + 1) - 1) max_path_length then home ++ rest else datadir

-- The new value of `datadir`, from its old value and the variable HOME.
unfoldable pub expand_path : Option Bytes → Bytes → Bytes → Bytes
unfolding fitted expand_home
expand_path home datadir [] = fitted datadir []
expand_path home datadir (c ∷ path) =
    if c == b'~' then expand_home datadir home path else fitted datadir (c ∷ path)

-- The text in front of the last slash; nothing if there is none, or if it is the first byte.
unfoldable pub parent_text : Bytes → Bytes
unfolding contains
parent_text [] = []
parent_text (c ∷ s) = let rest = parent_text s in if contains b'/' s then c ∷ rest else []

module _ (os : Os) where
  -- `true` stands for the result 0, and `false` for -1.
  unfoldable pub make_dir : Bytes → Tree → Bool × Tree
  make_dir dir t = if stat os dir t then (true, t) else mkdir os dir t

  -- `p != path && make_dirs(path) != 0`, and then the directory itself
  unfoldable pub below : Bytes → Bytes → (Bool × Tree) → Tree → Bool × Tree
  below path dir made t =
      let (fine, u) = (if is_empty dir then (true, t) else made) in
      if fine then make_dir path u else (false, u)

  unfoldable pub make_dirs_on : ℕ → Bytes → Tree → Bool × Tree
  make_dirs_on zero path t = (false, t)
  make_dirs_on (suc fuel) path t =
      let made = make_dirs_on fuel (parent_text path) t in below path (parent_text path) made t

  -- Each call has a shorter path, so the fuel is not used up.
  unfoldable pub make_dirs : Bytes → Tree → Bool × Tree
  unfolding make_dirs_on
  make_dirs path = make_dirs_on (suc (length path)) path

  -- `initialize_database_directories`, with the new `datadir` in the result
  unfoldable pub initialize_database_directories : Option Bytes → Bytes → Tree → Bool × Bytes × Tree
  initialize_database_directories home datadir t =
      let dir = expand_path home datadir database_dir in
      if is_empty dir
      then (false, dir, t)
      else if stat os dir t
      then (true, dir, t)
      else let (fine, u) = make_dirs dir t in (fine, dir, u)
