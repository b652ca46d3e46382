-- ===== src/Server/Threads/Peers/Trustline.antt =====
-- What a thread that sets a trustline for another server leaves alone, call by call.
use thing.Prelude.{◌≡◌, ◌≢◌, ◌≤◌, ◌<◌, ◌∙◌, Bool, true, false, not, Option, some, [], Bytes, length}
use thing.CString.{snprintf}
use thing.Files.Elsewhere.{remove_other, fopen_write_other, write_other}
use thing.Files.Laws.{mkdir-Grows}
use thing.Files.Resolve.{IsPlain}
use thing.Files.{Node, FilePath, Tree, resolve, same_path, node_at, access, fopen_write}
use thing.Format.{is_valid_username}
use thing.Server.Account.{account_path}
use thing.Server.Peer.Trustline.{trustline_file, resolve-filepath, filepath_ne}
use thing.Server.Peer.{SubjectName, get_domain_name, peer_path, trustline_path, clears, write_size}
use thing.Server.Threads.Directories.{directories-Keeps}
use thing.Server.Threads.Handlers.{make_dirs_calls}
use thing.Server.Threads.Peers.{store_trustline_calls, for_domain_calls, accept_trustline_calls}
use thing.Server.Threads.Program.{◌>>=◌, Keeps, Keeps-bind, Keeps-either}
use thing.Server.Types.{Server}

module _ (srv : Server) (q : FilePath) (n : Node) where
  abbrev pub Stays : Tree → Type 0
  Stays t = node_at q t ≡ some n

  module _ (path : Bytes) (ne : resolve path ≢ [])
      (other : same_path q (resolve path) ≡ false) where
    write_size-Stays :
        (size : Bytes) (r : Bool × Tree) → Stays r.1 → Stays (write_size srv path size r).1
    unfolding write_size
    write_size-Stays size (false, t) h = h
    write_size-Stays size (true, t) h = write_other srv.os q path ne other _ t ∙ h

    store_trustline-Keeps : (size : Bytes) → Keeps Stays (store_trustline_calls srv path size)
    unfolding store_trustline_calls ◌>>=◌
    store_trustline-Keeps size =
        Keeps-either Stays (clears size) _ _
          (λ t h. (remove_other srv.os q path ne other t ∙ h, tt))
          (λ t h. (
            write_size-Stays size (fopen_write srv.os path t)
                (fopen_write_other srv.os q path ne other t ∙ h),
            tt,
          ))

module _ (srv : Server) (subject : Option SubjectName) (local remote domain size : Bytes)
    (short : length srv.datadir < 256) (valid : is_valid_username local ≡ true) (ne : local ≢ [])
    (name : length local ≤ 255) (known : get_domain_name subject ≡ some domain)
    (plain_domain : IsPlain domain) (short_domain : length domain ≤ 255)
    (plain_remote : IsPlain remote) (short_remote : length remote ≤ 255) where
  -- Whatever other threads do between the calls of `accept_trustline`, and on any system, none of
  -- these calls changes a node that is there, apart from the trustline's file. The data directory has
  -- less than 256 bytes, the local name is valid and of 1 to 255 bytes, and the domain of the
  -- certificate and the remote name are names of one path component and of at most 255 bytes.
  pub accept_trustline_calls_keep :
      (q : FilePath) (n : Node)
      → same_path q (trustline_file srv.datadir local domain remote) ≡ false
      → Keeps (Stays srv q n) (accept_trustline_calls srv subject remote local size)
  unfolding accept_trustline_calls for_domain_calls ◌>>=◌
  accept_trustline_calls_keep q n other =
      let I = Stays srv q n in
      let user_dir = snprintf 768 (account_path srv.datadir local) in
      let peer_dir = snprintf 1280 (peer_path user_dir domain remote) in
      let path = snprintf 1536 (trustline_path peer_dir) in
      let is =
        resolve-filepath srv subject local remote domain size [] short valid ne name known
          plain_domain short_domain plain_remote short_remote in
      let named =
        filepath_ne srv subject local remote domain size [] short valid ne name known plain_domain
          short_domain plain_remote short_remote in
      Keeps-either I (not (is_valid_username local)) _ _ tt (λ t h. (
        h,
        Keeps-either I (not (access srv.os user_dir t)) _ _ tt (
            rw known (
              Keeps-bind I (make_dirs_calls srv.os peer_dir) _
                (directories-Keeps srv.os I (λ dir u k. (mkdir-Grows srv.os dir u).keeps q n k)
                  peer_dir)
                (λ made.
                  Keeps-either I made _ _
                    (store_trustline-Keeps srv q n path named (rw is other) size) tt))),
      ))
