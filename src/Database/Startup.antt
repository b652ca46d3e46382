-- ===== src/Database/Startup.antt =====
-- What the start of the server leaves behind.
use thing.Prelude.{◌≡◌, ◌<◌, true, false, Option, Bytes, length, arith, Bool-cases, inl, inr}
use thing.CString.{is_empty}
use thing.Files.{Tree, Os, resolve, node_at, is_there, stat}
use thing.Files.Laws.{Grows, Grows-refl, stat-there}
use thing.Database.{
  max_path_length, database_dir, expand_path, make_dirs, initialize_database_directories,
}
use thing.Database.MakeDirs.{make_dirs-Grows, make_dirs-there}
use thing.Database.Success.{length-expand_path-lt}

module _ (os : Os) (home : Option Bytes) (datadir : Bytes) (t : Tree) where
  -- When `initialize_database_directories` succeeds, and `datadir` fitted its buffer of 256 bytes
  -- before, the new data directory is not empty, fits the buffer and is there, and nothing but
  -- directories has been added to the files.
  pub initialize-there :
      length datadir < max_path_length
      → (initialize_database_directories os home datadir t).0 ≡ true
      → (is_empty (initialize_database_directories os home datadir t).1 ≡ false)
        × (length (initialize_database_directories os home datadir t).1 < max_path_length)
        × (is_there (
              node_at
                (resolve (initialize_database_directories os home datadir t).1)
                (initialize_database_directories os home datadir t).2)
            ≡ true)
        × Grows t (initialize_database_directories os home datadir t).2
  unfolding initialize_database_directories
  initialize-there short h =
      let dir = expand_path home datadir database_dir in
      let fits = length-expand_path-lt home datadir database_dir short in
      elim (Bool-cases (is_empty dir)) [
        | inl e ↦ absurd (ground arith)
        | inr e ↦ elim (Bool-cases (stat os dir t)) [
          | inl s ↦ rw (e, s) (e, fits, stat-there os dir t s, Grows-refl t)
          | inr s ↦
              let made : (make_dirs os dir t).0 ≡ true = rw (e, s) at h in
              rw (e, s) (e, fits, make_dirs-there os dir t made, make_dirs-Grows os dir t)
        ]
      ]
