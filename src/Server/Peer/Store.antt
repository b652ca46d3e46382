-- ===== src/Server/Peer/Store.antt =====
-- What `store_trustline` leaves in the trustline's file, and what it leaves alone.
use thing.Prelude.{
  ◌≡◌, ◌≢◌, refl, ap, ◌∙◌, Bool, true, false, Option, none, some, [], ◌∷◌, ◌++◌, Bytes, Bool-cases,
  inl, inr, if◌then◌else◌,
}
use thing.Files.Elsewhere.{remove_other, fopen_write_other, write_other}
use thing.Files.Laws.{node_at-put_self}
use thing.Files.Writes.{IsObliging, fopen_write-made, write_new, remove_file}
use thing.Files.{Node, directory, file, FilePath, Tree, resolve, same_path, node_at, fopen_write}
use thing.Server.Peer.{clears, write_size, store_trustline}
use thing.Server.Types.{Server, trustline_set_successfully}

-- The text of a file, if there is one.
abbrev pub text_at : Option Node → Option Bytes
text_at none = none
text_at (some directory) = none
text_at (some (file s)) = some s

text_at-none : (o : Option Node) → ((s : Bytes) → o ≢ some (file s)) → text_at o ≡ none
text_at-none none h = refl
text_at-none (some directory) h = refl
text_at-none (some (file s)) h = absurd (h s refl)

module _ (srv : Server) (path size : Bytes) (ne : resolve path ≢ []) where
  write_size-stores :
      (r : Bool × Tree)
      → IsObliging srv.os
      → (r.0 ≡ true → node_at (resolve path) r.1 ≡ some (file []))
      → (write_size srv path size r).0 ≡ trustline_set_successfully
      → node_at (resolve path) (write_size srv path size r).1 ≡ some (file (size ++ b'\n' ∷ []))
  unfolding write_size
  write_size-stores (false, t) kind made h = cc
  write_size-stores (true, t) kind made h =
      rw (write_new srv.os kind path (size ++ b'\n' ∷ []) t (made refl))
        (node_at-put_self (resolve path) (file (size ++ b'\n' ∷ [])) t ne)

  -- After a success there is no file if the size clears the trustline, and otherwise the file holds
  -- the size and a newline.
  pub store_trustline-stores :
      (t : Tree)
      → IsObliging srv.os
      → (store_trustline srv path size t).0 ≡ trustline_set_successfully
      → text_at (node_at (resolve path) (store_trustline srv path size t).1)
        ≡ (if clears size then none else some (size ++ b'\n' ∷ []))
  unfolding store_trustline
  store_trustline-stores t kind = elim (Bool-cases (clears size)) [
    | inl e ↦ rw e (λ h. text_at-none _ (λ s. remove_file srv.os kind path t s ne))
    | inr e ↦ rw e (λ h. ap text_at (
        write_size-stores (fopen_write srv.os path t) kind
          (λ made.
            rw (fopen_write-made srv.os kind path t made)
              (node_at-put_self (resolve path) (file []) t ne))
          h))
  ]

  write_size_other :
      (q : FilePath) (r : Bool × Tree)
      → same_path q (resolve path) ≡ false
      → node_at q (write_size srv path size r).1 ≡ node_at q r.1
  unfolding write_size
  write_size_other q (false, t) other = refl
  write_size_other q (true, t) other = write_other srv.os q path ne other (size ++ b'\n' ∷ []) t

  pub store_trustline_other :
      (q : FilePath) (t : Tree)
      → same_path q (resolve path) ≡ false
      → node_at q (store_trustline srv path size t).1 ≡ node_at q t
  unfolding store_trustline
  store_trustline_other q t other = elim (Bool-cases (clears size)) [
    | inl e ↦ rw e (remove_other srv.os q path ne other t)
    | inr e ↦ rw e (
        write_size_other q (fopen_write srv.os path t) other
        ∙ fopen_write_other srv.os q path ne other t)
  ]
