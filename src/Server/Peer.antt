-- ===== src/Server/Peer.antt =====
-- src/server/server_services/server_as_server/server_as_server_command_handlers.c, and the name of a
-- peer from src/server/network.c.
pub mod Store
pub mod Trustline
pub mod Certificate
use thing.Prelude.{
  ℕ, Bool, true, false, not, ◌||◌, Option, none, some, List, [], ◌∷◌, ◌++◌, Bytes, codes, take,
  if◌then◌else◌,
}
use thing.CString.{same, snprintf}
use thing.Scan.{sscanf}
use thing.Format.{is_valid_username}
use thing.Files.{Tree, Os, access, fopen_write, remove, write}
use thing.Database.{make_dirs}
use thing.Server.Account.{account_path}
use thing.Server.Trust.{or_none}
use thing.Server.Types.{
  Server, Reply, Outcome, replied, faulted, invalid_arguments, failed_username_invalid,
  failed_to_access_user_directory, failed_domain_check, directory_creation_failed,
  failed_to_open_file, trustline_set_successfully, default_user,
}

-- The subject name of a peer's certificate: the data of its first entry, and of its common name.
pub record SubjectName : Type 0 where
  pub first_entry : Option Bytes
  pub common_name : Option Bytes

unfoldable pub is_localhost : Bytes → Bool
is_localhost peer_ip = same peer_ip (codes "127.0.0.1") || same peer_ip (codes "::1")

unfoldable pub named : Option Bytes → Bytes → Option Bytes
named common_name peer_ip = if is_localhost peer_ip then some (codes "localhost") else common_name

unfoldable pub with_peer_ip : Option Bytes → Option Bytes → Option Bytes
with_peer_ip common_name none = none
with_peer_ip common_name (some peer_ip) = named common_name peer_ip

-- `none` is NULL. A copy of the name is taken to succeed.
unfoldable pub get_domain_name : Option SubjectName → Option Bytes
get_domain_name none = none
get_domain_name (some subject) = with_peer_ip subject.common_name subject.first_entry

-- `"%s/peers/%s/%s"`
unfoldable pub peer_path : Bytes → Bytes → Bytes → Bytes
peer_path user_dir domain remote = user_dir ++ codes "/peers/" ++ domain ++ codes "/" ++ remote

-- `"%s/trustline_incoming"`
unfoldable pub trustline_path : Bytes → Bytes
trustline_path peer_dir = peer_dir ++ codes "/trustline_incoming"

-- `strcmp(sizeStr, "none") == 0 || strcmp(sizeStr, "0") == 0`
unfoldable pub clears : Bytes → Bool
clears size = same size (codes "none") || same size (codes "0")

module _ (srv : Server) where
  unfoldable pub account_exists : Bytes → Tree → Bool
  account_exists username t =
      if not (is_valid_username (or_none username default_user))
      then false
      else access srv.os (snprintf 512 (account_path srv.datadir (or_none username default_user))) t

  -- `fprintf(file, "%s\n", sizeStr)`, whose result is not looked at.
  unfoldable pub write_size : Bytes → Bytes → (Bool × Tree) → Reply × Tree
  write_size filepath size (false, t) = (failed_to_open_file, t)
  write_size filepath size (true, t) =
      let (written, u) = write srv.os filepath (size ++ b'\n' ∷ []) t in
      (trustline_set_successfully, u)

  unfoldable pub store_trustline : Bytes → Bytes → Tree → Reply × Tree
  store_trustline filepath size t =
      if clears size
      then (trustline_set_successfully, remove srv.os filepath t)
      else write_size filepath size (fopen_write srv.os filepath t)

  unfoldable pub at_peer_dir : Bytes → Bytes → (Bool × Tree) → Reply × Tree
  at_peer_dir peer_dir size (false, t) = (directory_creation_failed, t)
  at_peer_dir peer_dir size (true, t) =
      store_trustline (snprintf 1536 (trustline_path peer_dir)) size t

  unfoldable pub for_domain : Bytes → Bytes → Bytes → Option Bytes → Tree → Reply × Tree
  for_domain user_dir remote size none t = (failed_domain_check, t)
  for_domain user_dir remote size (some domain) t =
      let peer_dir = snprintf 1280 (peer_path user_dir domain remote) in
      at_peer_dir peer_dir size (make_dirs srv.os peer_dir t)

  -- The three arguments, the local name after its default.
  unfoldable pub accept_trustline : Option SubjectName → Bytes → Bytes → Bytes → Tree → Reply × Tree
  accept_trustline subject remote local size t =
      let user_dir = snprintf 768 (account_path srv.datadir local) in
      if not (is_valid_username local)
      then (failed_username_invalid, t)
      else if not (access srv.os user_dir t)
      then (failed_to_access_user_directory, t)
      else for_domain user_dir remote size (get_domain_name subject) t

  unfoldable pub accept_fields : Option SubjectName → List Bytes → Tree → Reply × Tree
  accept_fields subject (remote ∷ local ∷ size ∷ []) t =
      accept_trustline subject remote (or_none local default_user) size t
  accept_fields subject _ t = (invalid_arguments, t)

  unfoldable pub server_as_server_handle_set_trustline :
      Option SubjectName → Option Bytes → Tree → Outcome × Tree
  server_as_server_handle_set_trustline subject none t = (faulted, t)
  server_as_server_handle_set_trustline subject (some args) t =
      let (reply, u) = accept_fields subject (sscanf (255 ∷ 255 ∷ 255 ∷ []) args) t in
      (replied reply, u)
