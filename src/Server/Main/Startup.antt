-- ===== src/Server/Main/Startup.antt =====
-- When the server starts, and with which contexts and data directory.
use thing.Prelude.{
  ℕ, ◌≡◌, ◌↔◌, ◌⊎◌, refl, ap, ◌∙◌, sym, true, false, Option, none, some, [], Bytes, arith,
  Bool-cases, Option-cases, inl, inr,
}
use thing.Contexts.{
  Context, Library, new_context, set_verify, with_certificate, with_private_key, with_paths,
  create_ssl_client_context, create_ssl_server_context, configure_ssl_server_context,
}
use thing.Database.{expand_path, initialize_database_directories}
use thing.Files.{Tree, Os}
use thing.Server.Main.{
  Setup, Running, create_socket, create_socket_on, with_socket, with_server_context,
  with_new_context, with_client_context, listening, start,
}

-- The three checks of a context, one behind the other.
pub record Passes (l : Library) (ctx : Option Context) : Type 0 where
  pub certificate : l.uses_certificate ctx ≡ true
  pub private_key : l.uses_private_key (with_certificate ctx) ≡ true
  pub match : l.checks_private_key (with_private_key (with_certificate ctx)) ≡ true

abbrev pub configured : Library → Option Context → Option Context
configured l ctx = with_paths l.sets_paths (with_private_key (with_certificate ctx))

configure_inv :
    (l : Library) (ctx out : Option Context)
    → configure_ssl_server_context l ctx ≡ some out
    → Passes l ctx × (out ≡ configured l ctx)
unfolding configure_ssl_server_context
configure_inv l ctx out h = (
  record { certificate = ground arith; private_key = ground arith; match = ground arith },
  ground arith,
)

configure-Passes :
    (l : Library) (ctx : Option Context)
    → Passes l ctx
    → configure_ssl_server_context l ctx ≡ some (configured l ctx)
unfolding configure_ssl_server_context
configure-Passes l ctx p = rw (p.certificate, p.private_key, p.match)

create_socket_iff :
    (s : Setup) (o : Option ℕ) (sock : ℕ)
    → (create_socket_on s o ≡ some sock)
      ↔ ((o ≡ some sock) × (s.reuses ≡ true) × (s.binds ≡ true) × (s.listens ≡ true))
unfolding create_socket_on
create_socket_iff s none sock = ground arith
create_socket_iff s (some n) sock = ground arith

-- What has to go well, and what the server then works with.
pub record Starts (s : Setup) (r : Running) : Type 0 where
  pub client_passes : Passes s.library (create_ssl_client_context s.library)
  pub makes_server : s.library.makes_server ≡ true
  pub server_passes : Passes s.library (some new_context)
  pub socket : s.socket ≡ some r.sock
  pub reuses : s.reuses ≡ true
  pub binds : s.binds ≡ true
  pub listens : s.listens ≡ true
  pub client :
      r.global_client_ctx ≡ set_verify (configured s.library (create_ssl_client_context s.library))
  pub server : r.server_ctx ≡ configured s.library (some new_context)

some_inv : {A : Type 0} {a b : A} → some a ≡ some b → a ≡ b
some_inv h = cc

not_listening : {A : Type 0} {b : A} → none ≡ some b → ⊥
not_listening h = cc

-- The two contexts and the socket behind the client's context.
record Behind (s : Setup) (set : Option Context) (r : Running) : Type 0 where
  makes_server : s.library.makes_server ≡ true
  server_passes : Passes s.library (some new_context)
  made : create_socket s ≡ some r.sock
  client : r.global_client_ctx ≡ set
  server : r.server_ctx ≡ configured s.library (some new_context)

with_socket_inv :
    (client server : Option Context) (o : Option ℕ) (r : Running)
    → with_socket client server o ≡ some r
    → (o ≡ some r.sock) × (r.global_client_ctx ≡ client) × (r.server_ctx ≡ server)
unfolding with_socket
with_socket_inv client server none r h = absurd (not_listening h)
with_socket_inv client server (some sock) r h =
    let e = sym (some_inv h) in
    (
      sym (ap (λ (x : Running). some x.sock) e),
      ap (λ (x : Running). x.global_client_ctx) e,
      ap (λ (x : Running). x.server_ctx) e,
    )

with_new_context_inv :
    (s : Setup) (client : Option Context) (r : Running)
    → with_new_context s client (create_ssl_server_context s.library) ≡ some r
    → Behind s client r
with_new_context_inv s client r h = elim (Bool-cases s.library.makes_server) [
  | inr e ↦
      absurd
        (not_listening {b = r} (unfold create_ssl_server_context with_new_context in rw e at h))
  | inl e ↦
      let made : create_ssl_server_context s.library ≡ some new_context =
        unfold create_ssl_server_context in rw e in
      elim (Option-cases (configure_ssl_server_context s.library (some new_context))) [
        | inl c ↦ absurd (
            not_listening {b = r}
              (unfold with_new_context with_server_context in rw (made, c) at h))
        | inr (out, c) ↦
            let (passes, is) = configure_inv s.library (some new_context) out c in
            let (sock, same_client, same_server) =
              with_socket_inv client out (create_socket s) r
                (unfold with_new_context with_server_context in rw (made, c) at h) in
            record {
              makes_server = e;
              server_passes = passes;
              made = sock;
              client = same_client;
              server = same_server ∙ is;
            }
      ]
]

start_sound : (s : Setup) (r : Running) → listening s ≡ some r → Starts s r
unfolding listening
start_sound s r h =
    elim (Option-cases
      (configure_ssl_server_context s.library (create_ssl_client_context s.library))) [
        | inl c ↦ absurd (not_listening {b = r} (unfold with_client_context in rw c at h))
        | inr (out, c) ↦
            let (passes, is) =
              configure_inv s.library (create_ssl_client_context s.library) out c in
            let b =
              with_new_context_inv s (set_verify out) r (unfold with_client_context in rw c at h) in
            let (socket, reuses, binds, listens) =
              (create_socket_iff s s.socket r.sock).0 (unfold create_socket in b.made) in
            record {
              client_passes = passes;
              makes_server = b.makes_server;
              server_passes = b.server_passes;
              socket = socket;
              reuses = reuses;
              binds = binds;
              listens = listens;
              client = b.client ∙ ap set_verify is;
              server = b.server;
            }
      ]

start_complete : (s : Setup) (r : Running) → Starts s r → listening s ≡ some r
unfolding listening with_client_context
start_complete s r p =
    let made : create_ssl_server_context s.library ≡ some new_context =
      unfold create_ssl_server_context in rw p.makes_server in
    let sock : create_socket s ≡ some r.sock =
      unfold create_socket in
      (create_socket_iff s s.socket r.sock).1 (p.socket, p.reuses, p.binds, p.listens) in
    rw (configure-Passes s.library (create_ssl_client_context s.library) p.client_passes, made)
      (unfold with_new_context in
        rw (configure-Passes s.library (some new_context) p.server_passes) (
          unfold with_server_context in
          rw sock (unfold with_socket in rw (← p.client, ← p.server))))

-- The server listens exactly if the checks of the certificate and the key go well for both contexts,
-- a context for a server can be made, and the socket is opened, reused, bound and listened on,
-- whatever becomes of the data directory. It then works with that socket, the context for a server,
-- and the context for a client, which was set to verify its peers.
pub start_iff :
    (os : Os) (home : Option Bytes) (datadir : Bytes) (s : Setup) (t : Tree) (r : Running)
    → ((start os home datadir s t).0 ≡ some r) ↔ Starts s r
unfolding start
start_iff os home datadir s t r = (start_sound s r, start_complete s r)

-- The context over which a server that started opens its connections to other servers verifies its
-- peer and shows the certificate with its key, unless it could not be made; so does the context for
-- incoming connections show them, which leaves the verification to each connection.
pub start_contexts :
    (os : Os) (home : Option Bytes) (datadir : Bytes) (s : Setup) (t : Tree) (r : Running)
    → (start os home datadir s t).0 ≡ some r
    → ((r.global_client_ctx ≡ none)
        ⊎ ((ctx : Context) × (r.global_client_ctx ≡ some ctx)
            × (ctx.verifies ≡ true)
            × (ctx.certificate ≡ true)
            × (ctx.private_key ≡ true)))
      × ((ctx : Context) × (r.server_ctx ≡ some ctx)
          × (ctx.verifies ≡ false)
          × (ctx.certificate ≡ true)
          × (ctx.private_key ≡ true))
unfolding with_paths with_private_key with_certificate set_verify
start_contexts os home datadir s t r h =
    let p = (start_iff os home datadir s t r).0 h in
    (client_context (create_ssl_client_context s.library) p.client, (_, p.server, refl, refl, refl))
  where
    client_context :
        (ctx : Option Context)
        → r.global_client_ctx ≡ set_verify (configured s.library ctx)
        → (r.global_client_ctx ≡ none)
          ⊎ ((ctx : Context) × (r.global_client_ctx ≡ some ctx)
              × (ctx.verifies ≡ true)
              × (ctx.certificate ≡ true)
              × (ctx.private_key ≡ true))
    client_context none e = inl e
    client_context (some ctx) e = inr (_, e, refl, refl, refl)

-- Without the variable HOME the server starts all the same, with the data directory that it had, and
-- makes no directory.
pub start_without_home :
    (os : Os) (s : Setup) (t : Tree) → start os none [] s t ≡ (listening s, [], t)
unfolding start initialize_database_directories expand_path
start_without_home os s t = unfold thing.CString.is_empty in refl
