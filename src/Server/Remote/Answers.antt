-- ===== src/Server/Remote/Answers.antt =====
-- Both commands of the protocol between servers have a handler.
use thing.Prelude.{◌≡◌, refl, Bytes, codes}
use thing.CString.{same}
use thing.Commands.{find_command_handler, initialize_commands}
use thing.Files.{Tree}
use thing.Server.Types.{Link, Network}
use thing.Server.Remote.{
  run_as_client, answered, server_as_client_dispatch_command,
  server_as_client_handle_account_exists, server_as_client_handle_set_trustline,
}

module _ (net : Network) (ssl : Link) (args : Bytes) (t : Tree) where
  pub dispatch_account_exists :
      server_as_client_dispatch_command net ssl (codes "ACCOUNT_EXISTS") args t
      ≡ server_as_client_handle_account_exists net ssl args t
  unfolding server_as_client_dispatch_command answered run_as_client find_command_handler
      initialize_commands same
  dispatch_account_exists = refl

  pub dispatch_set_trustline :
      server_as_client_dispatch_command net ssl (codes "SET_TRUSTLINE") args t
      ≡ server_as_client_handle_set_trustline net ssl args t
  unfolding server_as_client_dispatch_command answered run_as_client find_command_handler
      initialize_commands same
  dispatch_set_trustline = refl
