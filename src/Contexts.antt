-- ===== src/Contexts.antt =====
-- The contexts of OpenSSL: `create_ssl_client_context` and `configure_ssl_client_context` of
-- src/common/ssl_utils.c, `create_ssl_server_context` and `configure_ssl_server_context` of
-- src/server/network.c.
use thing.Prelude.{Bool, true, false, not, Option, none, some, if◌then◌else◌}

-- A context, as far as the program sets it: the verification of the peer, which fails without a
-- certificate, the paths of the trusted certificates, and what it shows of itself.
pub record Context : Type 0 where
  pub verifies : Bool
  pub default_paths : Bool
  pub certificate : Bool
  pub private_key : Bool

abbrev pub new_context : Context
new_context = record {
  verifies = false;
  default_paths = false;
  certificate = false;
  private_key = false;
}

-- What OpenSSL gives: whether a context for a client and one for a server can be made, whether the
-- default paths can be set, and the three results for the certificate and the key, of a context or
-- of NULL (`none`).
pub record Library : Type 0 where
  pub makes_client : Bool
  pub makes_server : Bool
  pub sets_paths : Bool
  pub uses_certificate : Option Context → Bool
  pub uses_private_key : Option Context → Bool
  pub checks_private_key : Option Context → Bool

-- `SSL_CTX_set_verify(ctx, SSL_VERIFY_PEER | SSL_VERIFY_FAIL_IF_NO_PEER_CERT, NULL)`
unfoldable pub set_verify : Option Context → Option Context
set_verify none = none
set_verify (some ctx) = some (record ctx { verifies = true })

unfoldable pub with_certificate : Option Context → Option Context
with_certificate none = none
with_certificate (some ctx) = some (record ctx { certificate = true })

unfoldable pub with_private_key : Option Context → Option Context
with_private_key none = none
with_private_key (some ctx) = some (record ctx { private_key = true })

-- `SSL_CTX_set_default_verify_paths`, with its result.
unfoldable pub with_paths : Bool → Option Context → Option Context
with_paths sets none = none
with_paths sets (some ctx) = some (record ctx { default_paths = sets })

module _ (l : Library) where
  -- `none` is NULL.
  unfoldable pub create_ssl_client_context : Option Context
  create_ssl_client_context = if l.makes_client then some new_context else none

  -- `none` if the process exits.
  unfoldable pub configure_ssl_client_context : Context → Option Context
  configure_ssl_client_context ctx =
      if not l.sets_paths then none else set_verify (with_paths true (some ctx))

  -- `none` if the process exits.
  unfoldable pub create_ssl_server_context : Option Context
  create_ssl_server_context = if l.makes_server then some new_context else none

  -- The context, or NULL, behind it; `none` if the process exits. The result of the last call is not
  -- looked at.
  unfoldable pub configure_ssl_server_context : Option Context → Option (Option Context)
  configure_ssl_server_context ctx =
      if not (l.uses_certificate ctx)
      then none
      else if not (l.uses_private_key (with_certificate ctx))
      then none
      else if not (l.checks_private_key (with_private_key (with_certificate ctx)))
      then none
      else some (with_paths l.sets_paths (with_private_key (with_certificate ctx)))
