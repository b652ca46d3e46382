-- ===== src/Files/Elsewhere.antt =====
-- The calls on one path leave every other node as it is.
use thing.Prelude.{ℕ, ◌≡◌, ◌≢◌, refl, false, Option, none, some, [], Bytes, arith}
use thing.Files.Laws.{node_at-put, node_at-without}
use thing.Files.{
  Node, directory, file, FilePath, Tree, resolve, same_path, node_at, put, without, Os, write,
  at_file, overwritten, truncated, fopen_write, removed, remove, unlinked, unlink, rmdir, opened,
  open_create,
}

module _ (os : Os) (q p : FilePath) (ne : p ≢ []) (other : same_path q p ≡ false) where
  put_other : (n : Node) (t : Tree) → node_at q (put p n t) ≡ node_at q t
  put_other n t = rw (node_at-put q p n t ne, other)

  without_other : (t : Tree) → node_at q (without p t) ≡ node_at q t
  without_other t = rw (node_at-without q p t ne, other)

  removed_other : (o : Option Node) (t : Tree) → node_at q (removed os o p t) ≡ node_at q t
  unfolding removed
  removed_other none t = refl
  removed_other (some directory) t = ground (arith, without_other t)
  removed_other (some (file s)) t = without_other t

  truncated_other : (o : Option Node) (t : Tree) → node_at q (truncated os o p t).1 ≡ node_at q t
  unfolding truncated
  truncated_other none t = ground (arith, put_other (file []) t)
  truncated_other (some directory) t = refl
  truncated_other (some (file s)) t = put_other (file []) t

  unlinked_other : (o : Option Node) (t : Tree) → node_at q (unlinked os o p t) ≡ node_at q t
  unfolding unlinked
  unlinked_other none t = refl
  unlinked_other (some directory) t = refl
  unlinked_other (some (file s)) t = without_other t

module _ (os : Os) (q : FilePath) (path : Bytes) (ne : resolve path ≢ [])
    (other : same_path q (resolve path) ≡ false) where
  pub remove_other : (t : Tree) → node_at q (remove os path t) ≡ node_at q t
  unfolding remove
  remove_other t =
      ground (arith, removed_other os q (resolve path) ne other (node_at (resolve path) t) t)

  pub fopen_write_other : (t : Tree) → node_at q (fopen_write os path t).1 ≡ node_at q t
  unfolding fopen_write
  fopen_write_other t =
      ground (arith, truncated_other os q (resolve path) ne other (node_at (resolve path) t) t)

  overwritten_other :
      (k : Option ℕ) (text : Bytes) (n : Node) (t : Tree)
      → node_at q (overwritten os k path text n t).1 ≡ node_at q t
  unfolding overwritten
  overwritten_other none text n t = refl
  overwritten_other (some k) text directory t = refl
  overwritten_other (some k) text (file old) t = put_other os q (resolve path) ne other _ t

  at_file_other :
      (o : Option Node) (text : Bytes) (t : Tree)
      → node_at q (at_file os o path text t).1 ≡ node_at q t
  unfolding at_file
  at_file_other none text t = refl
  at_file_other (some n) text t = overwritten_other (os.accepts path text t) text n t

  pub write_other : (text : Bytes) (t : Tree) → node_at q (write os path text t).1 ≡ node_at q t
  unfolding write
  write_other text t = at_file_other (node_at (resolve path) t) text t

  opened_other : (o : Option Node) (t : Tree) → node_at q (opened os path o t).1 ≡ node_at q t
  unfolding opened
  opened_other none t = ground (arith, put_other os q (resolve path) ne other (file []) t)
  opened_other (some directory) t = refl
  opened_other (some (file s)) t = refl

  pub open_create_other : (t : Tree) → node_at q (open_create os path t).1 ≡ node_at q t
  unfolding open_create
  open_create_other t = ground (arith, opened_other (node_at (resolve path) t) t)

  pub unlink_other : (t : Tree) → node_at q (unlink os path t) ≡ node_at q t
  unfolding unlink
  unlink_other t =
      ground (arith, unlinked_other os q (resolve path) ne other (node_at (resolve path) t) t)

  pub rmdir_other : (t : Tree) → node_at q (rmdir os path t) ≡ node_at q t
  unfolding rmdir
  rmdir_other t = ground (arith, without_other os q (resolve path) ne other t)
