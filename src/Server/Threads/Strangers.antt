-- ===== src/Server/Threads/Strangers.antt =====
-- All threads at once, none of which is sent the password of an account.
use thing.Prelude.{
  ◌≡◌, ◌≢◌, refl, ap, ◌∙◌, Bool, true, false, some, List, [], ◌∷◌, ◌++◌, Bytes, All, codes, take,
  arith, Bool-cases, inl, inr,
}
use thing.CString.{same, snprintf}
use thing.CString.Laws.{same_iff, snprintf_fits, length-snprintf-lt}
use thing.Files.Elsewhere.{write_other, remove_other, fopen_write_other}
use thing.Files.Writes.{open_read_iff, read_file}
use thing.Files.{FilePath, file, Tree, resolve, same_path, node_at, is_there, fopen_write}
use thing.Server.Account.Login.{file_of, login_user_iff}
use thing.Server.Account.RoundTrip.{resolve-dir_of, resolve-file_of, stored_password}
use thing.Server.Account.{login_user}
use thing.Server.Peer.Trustline.{length-trustline_path, resolve-trustline_path}
use thing.Server.Peer.{trustline_path, clears, write_size}
use thing.Server.Registry
use thing.Server.Registry.{meaning}
use thing.Server.Registry.Files.{password_file}
use thing.Server.Threads.Guarded.{Intact, Intact-unchanged, Beside, mkdir-Intact, found}
use thing.Server.Threads.Peers.Keeping.{KeepsPeers, server_connection-Keeps}
use thing.Server.Threads.Peers.{store_trustline_calls}
use thing.Server.Threads.Program.{done, call, ◌>>=◌, Keeps, Keeps-either, Safe}
use thing.Server.Threads.System.{
  Phase, waiting, working, answering, closed, answered, crashed, moved, System, Turn, reads,
  hangs_up, moves, Step, turns, client_comes, server_comes, Reach, here, next,
}
use thing.Server.Threads.Untouched.{IsForeign, Guards, no_session-IsForeign, handle_request-Safe}
use thing.Server.Threads.Asking.{Leaving}
use thing.Server.Types.{Server, replied, faulted, login_success}

module _ (srv : Server) (u q : Bytes) (g : Guards srv u q) where
  abbrev I : Tree → Type 0
  I = Intact (resolve srv.datadir) u q

  -- The file of a trustline is not the account's directory or its password file, whatever path another
  -- server names.
  trustline-Beside :
      (dir : Bytes)
      → Beside srv.os (resolve srv.datadir) u q (snprintf 1536 (trustline_path (snprintf 1280 dir)))
  trustline-Beside dir =
      let d : Bytes = snprintf 1280 dir in
      let uncut : snprintf 1536 (trustline_path d) ≡ trustline_path d =
        snprintf_fits 1536 (trustline_path d)
          (omega (arith, length-trustline_path d, length-snprintf-lt 1280 dir (omega arith))) in
      let at : resolve (snprintf 1536 (trustline_path d)) ≡ codes "trustline_incoming" ∷ resolve d =
        rw uncut (resolve-trustline_path d) in
      let apart : same u (codes "trustline_incoming") ≡ false =
        elim (Bool-cases (same u (codes "trustline_incoming"))) [
          | inl e ↦ absurd (g.apart ((same_iff u (codes "trustline_incoming")).0 e))
          | inr e ↦ e
        ] in
      record {
        named = λ e. cc (at);
        home = rw at (unfold same_path in rw apart);
        holds = rw at (unfold same_path same in refl);
      }

  write_size-Intact :
      (path size : Bytes) (r : Bool × Tree)
      → Beside srv.os (resolve srv.datadir) u q path
      → I r.1
      → I (write_size srv path size r).1
  unfolding write_size
  write_size-Intact path size (false, t) b i = i
  write_size-Intact path size (true, t) b i =
      Intact-unchanged srv.os (resolve srv.datadir) u q t _
        (write_other srv.os _ path b.named b.home _ t)
        (write_other srv.os _ path b.named b.holds _ t) i

  store_trustline-Intact :
      (path size : Bytes)
      → Beside srv.os (resolve srv.datadir) u q path
      → Keeps I (store_trustline_calls srv path size)
  unfolding store_trustline_calls ◌>>=◌
  store_trustline-Intact path size b =
      let base : FilePath = resolve srv.datadir in
      Keeps-either I (clears size) _ _
        (λ t i. (
          Intact-unchanged srv.os base u q t _ (remove_other srv.os _ path b.named b.home t)
              (remove_other srv.os _ path b.named b.holds t) i,
          tt,
        ))
        (λ t i. (
          write_size-Intact path size (fopen_write srv.os path t) b (
              Intact-unchanged srv.os base u q t _
                (fopen_write_other srv.os _ path b.named b.home t)
                (fopen_write_other srv.os _ path b.named b.holds t) i),
          tt,
        ))

  peers : KeepsPeers srv I
  peers = record {
    mkdir = mkdir-Intact srv.os (resolve srv.datadir) u q;
    store = λ dir size. store_trustline-Intact _ size (trustline-Beside dir);
  }

  -- A thread whose session is not the owner's, and whose calls to come leave the account.
  abbrev IsStranger : Phase → Type 0
  IsStranger (waiting s sent) = IsForeign u s
  IsStranger (working p sent) = Safe I (Leaving (IsForeign u)) p
  IsStranger (answering p) = Keeps I p
  IsStranger (closed s sent) = IsForeign u s
  IsStranger _ = Unit

  moved-IsStranger :
      (p : Phase) (t : Tree) → IsStranger p → I t → IsStranger (moved p t).0 × I (moved p t).1
  unfolding moved
  moved-IsStranger (waiting s sent) t n w = (n, w)
  moved-IsStranger (working (call act rest) sent) t n w = ((n t w).1, (n t w).0)
  moved-IsStranger (working (done (replied r, s)) sent) t n w = (n, w)
  moved-IsStranger (working (done (faulted, s)) sent) t n w = (tt, w)
  moved-IsStranger (answering (call act rest)) t n w = ((n t w).1, (n t w).0)
  moved-IsStranger (answering (done o)) t n w = (tt, w)
  moved-IsStranger (closed s sent) t n w = (n, w)
  moved-IsStranger (answered o) t n w = (tt, w)
  moved-IsStranger crashed t n w = (tt, w)

-- No client's read is LOGIN with that name and that password.
abbrev pub AvoidsTurn :
    (srv : Server) (u q : Bytes) {p r : Phase} {t v : Tree} → Turn srv p t r v → Type 0
AvoidsTurn srv u q (reads received s sent t e) = meaning received ≢ some (Registry.login u q)
AvoidsTurn srv u q (hangs_up s sent t) = Unit
AvoidsTurn srv u q (moves p t r v e) = Unit

abbrev pub AvoidsStep : (srv : Server) (u q : Bytes) {x y : System} → Step srv x y → Type 0
AvoidsStep srv u q (turns before after turn) = AvoidsTurn srv u q turn
AvoidsStep srv u q (client_comes t ps) = Unit
AvoidsStep srv u q (server_comes subject received t ps) = Unit

abbrev pub Avoids : (srv : Server) (u q : Bytes) {x y : System} → Reach srv x y → Type 0
Avoids srv u q here = Unit
Avoids srv u q (next r st) = Avoids srv u q r × AvoidsStep srv u q st

module _ (srv : Server) (u q : Bytes) (g : Guards srv u q) where
  -- The account is there, and every thread is a stranger to it.
  record IsSafe (x : System) : Type 0 where
    account : Intact (resolve srv.datadir) u q x.files
    threads : All (IsStranger srv u q g) x.threads

  Turn-IsStranger :
      {p r : Phase} {t v : Tree} (turn : Turn srv p t r v)
      → AvoidsTurn srv u q turn
      → IsStranger srv u q g p
      → Intact (resolve srv.datadir) u q t
      → IsStranger srv u q g r × Intact (resolve srv.datadir) u q v
  Turn-IsStranger (reads received s sent t e) ne n i =
      (handle_request-Safe srv u q g received s ne n, i)
  Turn-IsStranger (hangs_up s sent t) ne n i = (n, i)
  Turn-IsStranger (moves p t r v e) ne n i =
      let m = moved-IsStranger srv u q g p t n i in
      (rw (ap (λ (x : Phase × Tree). x.0) e) at m.0, rw (ap (λ (x : Phase × Tree). x.1) e) at m.1)

  All-turned_at :
      (before after : List Phase) {p r : Phase} {t v : Tree} (turn : Turn srv p t r v)
      → AvoidsTurn srv u q turn
      → Intact (resolve srv.datadir) u q t
      → All (IsStranger srv u q g) (before ++ p ∷ after)
      → All (IsStranger srv u q g) (before ++ r ∷ after) × Intact (resolve srv.datadir) u q v
  All-turned_at [] after turn ne i (h, k) = let (n, v) = Turn-IsStranger turn ne h i in ((n, k), v)
  All-turned_at (x ∷ before) after turn ne i (h, k) =
      let (rest, v) = All-turned_at before after turn ne i k in ((h, rest), v)

  Step-IsSafe : {x y : System} (st : Step srv x y) → AvoidsStep srv u q st → IsSafe x → IsSafe y
  Step-IsSafe (turns before after turn) ne h =
      let (threads, account) = All-turned_at before after turn ne h.account h.threads in
      record { account = account; threads = threads }
  Step-IsSafe (client_comes t ps) ne h = record {
    account = h.account;
    threads = (no_session-IsForeign srv u q g, h.threads);
  }
  Step-IsSafe (server_comes subject received t ps) ne h = record {
    account = h.account;
    threads = (
      server_connection-Keeps srv (Intact (resolve srv.datadir) u q) (peers srv u q g) subject
          received,
      h.threads,
    );
  }

  Reach-IsSafe : {x y : System} (r : Reach srv x y) → Avoids srv u q r → IsSafe x → IsSafe y
  Reach-IsSafe here ne h = h
  Reach-IsSafe (next r st) (ne, n) h = Step-IsSafe st n (Reach-IsSafe r ne h)

  -- An account that is there lets its owner in.
  lets_in :
      (t : Tree)
      → Intact (resolve srv.datadir) u q t
      → login_user srv.os srv.datadir u q t ≡ login_success
  lets_in t i =
      let path = file_of srv.datadir u in
      let at : resolve path ≡ password_file (resolve srv.datadir) u =
        resolve-file_of srv.os g.kind srv.datadir u g.short g.name
        ∙ ap (◌∷◌ (codes "password"))
            (resolve-dir_of srv.os g.kind srv.datadir u g.short g.name g.accepted) in
      (login_user_iff srv.os srv.datadir u q t).1 (
        g.accepted,
        record {
          known = found srv.os g.kind srv.datadir g.short u q g.accepted g.name t i;
          opens =
              open_read_iff srv.os g.kind path t (λ k. cc (at))
              ∙ rw (at, i.holds) (unfold is_there in refl);
          bytes = take 255 q;
          reads = read_file srv.os g.kind path 255 t q (rw at i.holds);
          matches = stored_password q g.password;
        },
      )

  -- However threads for clients and for other servers come and take turns at the system's calls: if
  -- no thread runs at the start, and no read of a client is LOGIN with the name and the password of
  -- an account that is there, then at each time the account's file holds that password, and LOGIN
  -- with it succeeds. The name is one that REGISTER accepts, of at most 255 bytes and not
  -- `trustline_incoming`, and the password one that can be scanned. The system refuses nothing and
  -- writes all it is given, the data directory is an absolute path of less than 256 literal bytes,
  -- the shell runs `rm -rf` as documented, and exchanges with other servers leave the account's
  -- directory and file.
  pub Reach-guards :
      {t : Tree} {y : System}
      → Intact (resolve srv.datadir) u q t
      → (r : Reach srv (record { files = t; threads = [] }) y) → Avoids srv u q r
      → (node_at (password_file (resolve srv.datadir) u) y.files ≡ some (file q))
        × (login_user srv.os srv.datadir u q y.files ≡ login_success)
  Reach-guards i r ne =
      let safe = Reach-IsSafe r ne (record { account = i; threads = tt }) in
      (safe.account.holds, lets_in _ safe.account)
