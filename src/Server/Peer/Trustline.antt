-- ===== src/Server/Peer/Trustline.antt =====
-- SET_TRUSTLINE from another server: the file that it sets, and all else that it leaves alone.
use thing.Prelude.{
  ℕ, ◌+◌, ◌≡◌, ◌≢◌, ◌≤◌, ◌<◌, refl, ap, ◌∙◌, Bool, true, false, Option, none, some, [], ◌∷◌, ◌++◌,
  Bytes, codes, length, length-append, append_assoc, arith, if◌then◌else◌,
}
use thing.CString.{snprintf}
use thing.CString.Laws.{snprintf_fits, length-snprintf-lt}
use thing.Database.MakeDirs.{make_dirs-Grows}
use thing.Database.{make_dirs}
use thing.Files.Resolve.{IsPlain, resolve_entry}
use thing.Files.Writes.{IsObliging}
use thing.Files.{Node, FilePath, Tree, resolve, same_path, node_at}
use thing.Format.{is_valid_username}
use thing.Server.Account.Paths.{
  length-account_path, account_path_fits, resolve-account_path, valid-IsPlain,
}
use thing.Server.Account.{account_path}
use thing.Server.Peer.Store.{text_at, store_trustline-stores, store_trustline_other}
use thing.Server.Peer.{
  SubjectName, get_domain_name, peer_path, trustline_path, clears, store_trustline, at_peer_dir,
  for_domain, accept_trustline,
}
use thing.Server.Types.{Server, trustline_set_successfully}

peers-IsPlain : IsPlain (codes "peers")
peers-IsPlain = record {
  nonempty = λ e. cc;
  no_slash = ground arith;
  not_here = λ e. cc;
  not_up = λ e. cc;
}

trustline-IsPlain : IsPlain (codes "trustline_incoming")
trustline-IsPlain = record {
  nonempty = λ e. cc;
  no_slash = ground arith;
  not_here = λ e. cc;
  not_up = λ e. cc;
}

-- The file of the trustline that a user of another domain gives to a local user.
abbrev pub trustline_file : Bytes → Bytes → Bytes → Bytes → FilePath
trustline_file datadir local domain remote =
    codes "trustline_incoming"
    ∷ remote
    ∷ domain
    ∷ codes "peers"
    ∷ local
    ∷ codes "accounts"
    ∷ resolve datadir

peer_path_split :
    (dir domain remote : Bytes)
    → peer_path dir domain remote ≡ ((dir ++ codes "/peers") ++ b'/' ∷ domain) ++ b'/' ∷ remote
unfolding peer_path
peer_path_split dir domain remote = simp append_assoc

length-peer_path :
    (dir domain remote : Bytes)
    → length (peer_path dir domain remote) ≡ length dir + 8 + length domain + length remote
length-peer_path dir domain remote = omega (
  arith,
  ap {B = ℕ} length (peer_path_split dir domain remote),
  length-append {0} ((dir ++ codes "/peers") ++ b'/' ∷ domain) (b'/' ∷ remote),
  length-append {0} (dir ++ codes "/peers") (b'/' ∷ domain),
  length-append {0} dir (codes "/peers"),
)

pub length-trustline_path : (dir : Bytes) → length (trustline_path dir) ≡ length dir + 19
unfolding trustline_path
length-trustline_path dir = omega (arith, length-append {0} dir (codes "/trustline_incoming"))

pub resolve-trustline_path :
    (dir : Bytes) → resolve (trustline_path dir) ≡ codes "trustline_incoming" ∷ resolve dir
unfolding trustline_path
resolve-trustline_path dir = resolve_entry dir (codes "trustline_incoming") trustline-IsPlain

resolve-peer_path :
    (dir domain remote : Bytes)
    → IsPlain domain
    → IsPlain remote
    → resolve (peer_path dir domain remote) ≡ remote ∷ domain ∷ codes "peers" ∷ resolve dir
resolve-peer_path dir domain remote d r = rw (peer_path_split dir domain remote) (
    resolve_entry ((dir ++ codes "/peers") ++ b'/' ∷ domain) remote r
    ∙ ap (◌∷◌ remote) (
        resolve_entry (dir ++ codes "/peers") domain d
        ∙ ap (◌∷◌ domain) (resolve_entry dir (codes "peers") peers-IsPlain)))

module _ (srv : Server) (dir size : Bytes) where
  at_peer_dir-success :
      (r : Bool × Tree)
      → (at_peer_dir srv dir size r).0 ≡ trustline_set_successfully
      → at_peer_dir srv dir size r
        ≡ store_trustline srv (snprintf 1536 (trustline_path dir)) size r.1
  unfolding at_peer_dir
  at_peer_dir-success (false, t) h = cc
  at_peer_dir-success (true, t) h = refl

  at_peer_dir_keeps :
      (q : FilePath) (n : Node) (r : Bool × Tree)
      → resolve (snprintf 1536 (trustline_path dir)) ≢ []
      → same_path q (resolve (snprintf 1536 (trustline_path dir))) ≡ false
      → node_at q r.1 ≡ some n
      → node_at q (at_peer_dir srv dir size r).1 ≡ some n
  unfolding at_peer_dir
  at_peer_dir_keeps q n (false, t) ne other h = h
  at_peer_dir_keeps q n (true, t) ne other h =
      store_trustline_other srv (snprintf 1536 (trustline_path dir)) size ne q t other ∙ h

module _ (srv : Server) (subject : Option SubjectName) (local remote domain size : Bytes) (t : Tree)
    (short : length srv.datadir < 256) (valid : is_valid_username local ≡ true) (ne : local ≢ [])
    (name : length local ≤ 255) (known : get_domain_name subject ≡ some domain)
    (plain_domain : IsPlain domain) (short_domain : length domain ≤ 255)
    (plain_remote : IsPlain remote) (short_remote : length remote ≤ 255) where
  abbrev pub user_dir : Bytes
  user_dir = snprintf 768 (account_path srv.datadir local)

  abbrev pub peer_dir : Bytes
  peer_dir = snprintf 1280 (peer_path user_dir domain remote)

  abbrev pub filepath : Bytes
  filepath = snprintf 1536 (trustline_path peer_dir)

  user_dir_uncut : user_dir ≡ account_path srv.datadir local
  user_dir_uncut = account_path_fits srv.datadir local short name

  peer_short : length (peer_path user_dir domain remote) < 1280
  peer_short = omega (
    arith,
    length-peer_path user_dir domain remote,
    ap {B = ℕ} length user_dir_uncut,
    length-account_path srv.datadir local,
  )

  long_enough : length (trustline_path peer_dir) < 1536
  long_enough = omega (
    arith,
    length-trustline_path peer_dir,
    length-snprintf-lt 1280 (peer_path user_dir domain remote) (omega arith),
  )

  pub resolve-filepath : resolve filepath ≡ trustline_file srv.datadir local domain remote
  resolve-filepath = rw (snprintf_fits 1536 (trustline_path peer_dir) long_enough) (
      resolve-trustline_path peer_dir
      ∙ ap (◌∷◌ (codes "trustline_incoming")) (
          rw (snprintf_fits 1280 (peer_path user_dir domain remote) peer_short) (
            resolve-peer_path user_dir domain remote plain_domain plain_remote
            ∙ ap (λ p. remote ∷ domain ∷ codes "peers" ∷ p)
                (rw user_dir_uncut
                  (resolve-account_path srv.datadir local (valid-IsPlain local valid ne))))))

  pub filepath_ne : resolve filepath ≢ []
  filepath_ne e = cc (resolve-filepath)

  -- With the tests passed, all depends on the directory of the peer.
  accept_lem :
      (accept_trustline srv subject remote local size t).0 ≡ trustline_set_successfully
      → accept_trustline srv subject remote local size t
        ≡ store_trustline srv filepath size (make_dirs srv.os peer_dir t).1
  unfolding accept_trustline for_domain
  accept_lem h =
      ground (arith, known, at_peer_dir-success srv peer_dir size (make_dirs srv.os peer_dir t))

  -- When `accept_trustline` answers TRUSTLINE_SET_SUCCESSFULLY, on a system that refuses nothing and
  -- writes all it is given, the file of the trustline holds the size and a newline, or no text if
  -- the size is `none` or `0`. The data directory has less than 256 bytes, the local name is valid
  -- and of 1 to 255 bytes, and the domain of the certificate and the remote name are names of one
  -- path component and of at most 255 bytes.
  pub accept_trustline-stores :
      IsObliging srv.os
      → (accept_trustline srv subject remote local size t).0 ≡ trustline_set_successfully
      → text_at (
          node_at
            (trustline_file srv.datadir local domain remote)
            (accept_trustline srv subject remote local size t).1)
        ≡ (if clears size then none else some (size ++ b'\n' ∷ []))
  accept_trustline-stores kind h =
      let m : Tree = (make_dirs srv.os peer_dir t).1 in
      let stored =
        store_trustline-stores srv filepath size filepath_ne m kind (rw (accept_lem h) at h) in
      rw (accept_lem h) (rw resolve-filepath at stored)

  -- Whatever `accept_trustline` answers, and on any system, every node that was there, apart from the
  -- trustline's file, is as it was. The data directory has less than 256 bytes, the local name is
  -- valid and of 1 to 255 bytes, and the domain of the certificate and the remote name are names of
  -- one path component and of at most 255 bytes.
  pub accept_trustline_keeps :
      (q : FilePath) (n : Node)
      → same_path q (trustline_file srv.datadir local domain remote) ≡ false
      → node_at q t ≡ some n
      → node_at q (accept_trustline srv subject remote local size t).1 ≡ some n
  unfolding accept_trustline for_domain
  accept_trustline_keeps q n other h =
      let made = make_dirs srv.os peer_dir t in
      let kept = (make_dirs-Grows srv.os peer_dir t).keeps q n h in
      ground (
        arith,
        known,
        at_peer_dir_keeps srv peer_dir size q n made filepath_ne (rw resolve-filepath other) kept,
      )
