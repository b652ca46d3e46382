-- ===== src/Server/Threads/Directories.antt =====
-- What the making of a directory keeps, call by call.
use thing.Prelude.{ℕ, zero, suc, true, Bytes, length, if◌then◌else◌}
use thing.CString.{is_empty}
use thing.Database.{parent_text}
use thing.Files.{Tree, Os, stat, mkdir}
use thing.Server.Threads.Handlers.{make_dir_calls, below_calls, make_dirs_on_calls, make_dirs_calls}
use thing.Server.Threads.Program.{done, ◌>>=◌, Keeps, Keeps-bind, Keeps-either}

module _ (os : Os) (I : Tree → Type 0)
    (kept : (dir : Bytes) (t : Tree) → I t → I (mkdir os dir t).1) where
  make_dir-Keeps : (dir : Bytes) → Keeps I (make_dir_calls os dir)
  unfolding make_dir_calls ◌>>=◌
  make_dir-Keeps dir = λ t w. (w, Keeps-either I (stat os dir t) _ _ tt (λ u v. (kept dir u v, tt)))

  make_dirs_on-Keeps : (fuel : ℕ) (path : Bytes) → Keeps I (make_dirs_on_calls os fuel path)
  unfolding make_dirs_on_calls below_calls
  make_dirs_on-Keeps zero path = tt
  make_dirs_on-Keeps (suc fuel) path =
      let above = make_dirs_on-Keeps fuel (parent_text path) in
      Keeps-bind I
        (if is_empty (parent_text path)
          then done true
          else make_dirs_on_calls os fuel (parent_text path))
        _ (Keeps-either I (is_empty (parent_text path)) _ _ tt above)
        (λ fine. Keeps-either I fine _ _ (make_dir-Keeps path) tt)

  pub directories-Keeps : (path : Bytes) → Keeps I (make_dirs_calls os path)
  directories-Keeps path = unfold make_dirs_calls in make_dirs_on-Keeps (suc (length path)) path
