-- ===== src/Tests.antt =====
-- Runs of the model on concrete inputs, and each theorem with hypotheses at an input that meets
-- them.
pub mod Accounts
mod Peers
pub mod Parts
mod Sockets
mod Client
mod Starts
mod Threads
mod Registry
mod Streams
mod Strangers
use thing.Prelude.{
  ℕ, Bool, true, false, Option, none, some, List, [], ◌∷◌, ◌++◌, Bytes, codes, length, ◌≡◌, refl,
  drop, if◌then◌else◌,
}
use thing.Files.{FilePath, Node, Tree, Os, resolve}
use thing.Server.Account.Delete.{is_under}
use thing.Server.Connection.{serve, handle_client_connection, End, closed}
use thing.Server.Types.{Server, Network, State, no_session}

-- A system that refuses nothing, writes all it is given, and runs `rm -rf` with one path. As
-- `rm` does, it will not remove the root.
prune : FilePath → Tree → Tree
prune p [] = []
prune p ((q, n) ∷ t) = let rest = prune p t in if is_under p q then rest else (q, n) ∷ rest

remove_tree : FilePath → Tree → Bool × Tree
remove_tree [] t = (false, t)
remove_tree (n ∷ p) t = (true, prune (n ∷ p) t)

abbrev obliging : Os
obliging = record {
  refuses = λ c p t. false;
  accepts = λ path s t. some (length s);
  system = λ command t. remove_tree (resolve (drop 7 command)) t;
}

-- Every server answers ACCOUNT_EXISTS to every request.
abbrev friendly : Network
friendly = record {
  connects = λ l. true;
  exchange = λ l request t. (some (codes "ACCOUNT_EXISTS"), t);
}

abbrev home : Tree
home = []

abbrev demo : Server
demo = record { datadir = codes "/srv/ripple"; os = obliging; net = friendly }

-- Opens the program to the tests.
program : Unit {0}
unfolding thing.CString.before thing.CString.contains thing.CString.cstr thing.CString.is_empty
    thing.CString.same thing.CString.snprintf thing.Commands.find_command_handler
    thing.Commands.initialize_commands thing.Database.expand_path
    thing.Database.initialize_database_directories thing.Database.make_dir thing.Database.make_dirs
    thing.Database.parent_text thing.Files.access thing.Files.components thing.Files.enter
    thing.Files.fopen_write thing.Files.has_child thing.Files.is_directory thing.Files.is_there
    thing.Files.mkdir thing.Files.node_at thing.Files.open_create thing.Files.open_read
    thing.Files.put thing.Files.read thing.Files.remove thing.Files.resolve thing.Files.rmdir
    thing.Files.same_path thing.Files.stat thing.Files.unlink thing.Files.walk thing.Files.without
    thing.Files.write thing.Format.atoi thing.Format.is_alnum thing.Format.is_digit
    thing.Format.is_number thing.Format.is_positive thing.Format.is_valid_argument
    thing.Format.is_valid_port thing.Format.is_valid_username thing.Format.leading_digits
    thing.Format.low_int thing.Scan.field thing.Scan.is_space thing.Scan.sscanf
    thing.Server.Account.account_path thing.Server.Account.check_password thing.Server.Account.chomp
    thing.Server.Account.client_handle_delete_account thing.Server.Account.client_handle_login
    thing.Server.Account.client_handle_logout thing.Server.Account.client_handle_register
    thing.Server.Account.create_account thing.Server.Account.credentials
    thing.Server.Account.delete_command thing.Server.Account.deleted thing.Server.Account.logged_in
    thing.Server.Account.login_user thing.Server.Account.password_path
    thing.Server.Account.register_user thing.Server.Account.rejects_username
    thing.Server.Account.store_password thing.Server.Account.write_password
    thing.Server.Connection.continue thing.Server.Connection.handle_client_connection
    thing.Server.Connection.handle_request thing.Server.Connection.handle_server_connection
    thing.Server.Connection.serve thing.Server.Connection.split_command
    thing.Server.Dispatch.answer_client thing.Server.Dispatch.answer_server
    thing.Server.Dispatch.client_dispatch_command thing.Server.Dispatch.run_client
    thing.Server.Dispatch.server_as_server_dispatch_command thing.Server.Peer.accept_fields
    thing.Server.Peer.accept_trustline thing.Server.Peer.account_exists
    thing.Server.Peer.at_peer_dir thing.Server.Peer.clears thing.Server.Peer.for_domain
    thing.Server.Peer.get_domain_name thing.Server.Peer.is_localhost thing.Server.Peer.named
    thing.Server.Peer.peer_path thing.Server.Peer.server_as_server_handle_set_trustline
    thing.Server.Peer.store_trustline thing.Server.Peer.trustline_path
    thing.Server.Peer.with_peer_ip thing.Server.Peer.write_size thing.Server.Remote.answered
    thing.Server.Remote.query_server thing.Server.Remote.receive_response
    thing.Server.Remote.run_as_client thing.Server.Remote.server_as_client_connection_handler
    thing.Server.Remote.server_as_client_dispatch_command
    thing.Server.Remote.server_as_client_handle_account_exists
    thing.Server.Remote.server_as_client_handle_set_trustline thing.Server.Trust.add_account
    thing.Server.Trust.add_connection thing.Server.Trust.client_handle_add_connection
    thing.Server.Trust.client_handle_set_trustline thing.Server.Trust.connect_and_ask
    thing.Server.Trust.connection_path thing.Server.Trust.finish_connection
    thing.Server.Trust.local_address thing.Server.Trust.made_connection
    thing.Server.Trust.or_default thing.Server.Trust.or_none thing.Server.Trust.request_trustline
    thing.Server.Trust.returned thing.Server.Trust.set_trustline_fields
    thing.Server.Trust.trustline_args thing.Server.Types.text thing.Database.below
    thing.Database.Success.path_text thing.Sockets.accept_as thing.Sockets.by_type
    thing.Sockets.received_type thing.Sockets.handle_new_connection is_under prune remove_tree
program = tt

-- Opens the client program to the tests.
client_program : Unit {0}
unfolding thing.Client.Address.at_end thing.Client.Address.is_host_byte
    thing.Client.Address.parse_address_and_port thing.Client.Address.port_part
    thing.Client.Address.run_of thing.Client.Address.with_port thing.Client.Console.ask
    thing.Client.Console.ask_again thing.Client.Console.ask_on thing.Client.Console.exchanged
    thing.Client.Console.prompt thing.Client.Console.prompt_on thing.Client.Console.show
    thing.Client.Console.stripped thing.Client.Dialogue.command_list
    thing.Client.Dialogue.dispatch_command thing.Client.Dialogue.interact_lines
    thing.Client.Dialogue.interact_on thing.Client.Dialogue.interact_with_server
    thing.Client.Dialogue.listed thing.Client.Dialogue.run_handler
    thing.Client.Dialogue.run_or_refuse thing.Client.Handlers.add_connection_request
    thing.Client.Handlers.ask_password thing.Client.Handlers.delete_request
    thing.Client.Handlers.handle_add_connection thing.Client.Handlers.handle_delete_account
    thing.Client.Handlers.handle_login thing.Client.Handlers.handle_login_and_register
    thing.Client.Handlers.handle_logout thing.Client.Handlers.handle_register
    thing.Client.Handlers.handle_set_trustline thing.Client.Handlers.login_request
    thing.Client.Handlers.none_if_empty thing.Client.Handlers.query_account_details
    thing.Client.Handlers.set_trustline_request thing.Client.Handlers.show_checked
    thing.Client.Handlers.show_or thing.Client.Handlers.show_unchecked
    thing.Client.Launch.client_main thing.Client.Launch.connect_to thing.Client.Launch.is_read
    thing.Client.Launch.send_header thing.Client.Launch.talk thing.Client.Launch.url_of
    thing.Client.Stdin.fgets thing.Client.Stdin.lines_with thing.Client.Stdin.onto_line
    thing.Client.Stdin.lines_of thing.Client.Launch.configured_main thing.Client.Launch.main_with
    thing.Contexts.configure_ssl_client_context thing.Contexts.configure_ssl_server_context
    thing.Contexts.create_ssl_client_context thing.Contexts.create_ssl_server_context
    thing.Contexts.set_verify thing.Contexts.with_certificate thing.Contexts.with_paths
    thing.Contexts.with_private_key thing.Server.Main.accept_loop thing.Server.Main.create_socket
    thing.Server.Main.create_socket_on thing.Server.Main.listening thing.Server.Main.start
    thing.Server.Main.started thing.Server.Main.with_client_context
    thing.Server.Main.with_new_context thing.Server.Main.with_server_context
    thing.Server.Main.with_socket
client_program = tt

-- Opens the threads to the tests.
threads_program : Unit {0}
unfolding thing.Server.Threads.Handlers.add_account_calls
    thing.Server.Threads.Handlers.add_connection_calls thing.Server.Threads.Handlers.after_password
    thing.Server.Threads.Handlers.answer_client_calls thing.Server.Threads.Handlers.below_calls
    thing.Server.Threads.Handlers.connect_and_ask_calls
    thing.Server.Threads.Handlers.create_account_calls
    thing.Server.Threads.Handlers.delete_account_calls thing.Server.Threads.Handlers.deleted_session
    thing.Server.Threads.Handlers.finish_connection_calls
    thing.Server.Threads.Handlers.handle_request_calls thing.Server.Threads.Handlers.login_calls
    thing.Server.Threads.Handlers.login_user_calls thing.Server.Threads.Handlers.logout_calls
    thing.Server.Threads.Handlers.make_dir_calls thing.Server.Threads.Handlers.make_dirs_calls
    thing.Server.Threads.Handlers.make_dirs_on_calls thing.Server.Threads.Handlers.read_password
    thing.Server.Threads.Handlers.register_calls thing.Server.Threads.Handlers.register_user_calls
    thing.Server.Threads.Handlers.request_trustline_calls
    thing.Server.Threads.Handlers.returned_response thing.Server.Threads.Handlers.run_client_calls
    thing.Server.Threads.Handlers.set_trustline_calls
    thing.Server.Threads.Handlers.store_password_calls
    thing.Server.Threads.Handlers.trustline_fields_calls
    thing.Server.Threads.Handlers.written_password thing.Server.Threads.Peers.accept_fields_calls
    thing.Server.Threads.Peers.accept_trustline_calls thing.Server.Threads.Peers.answer_server_calls
    thing.Server.Threads.Peers.for_domain_calls
    thing.Server.Threads.Peers.handle_server_connection_calls
    thing.Server.Threads.Peers.store_trustline_calls thing.Server.Threads.Program.run
    thing.Server.Threads.Program.◌>>=◌ thing.Server.Threads.System.moved
threads_program = tt

-- A client registers, logs in, adds a connection and deletes its account.
dialogue :
    (handle_client_connection demo true
      (codes "REGISTER bob pw"
        ∷ codes "LOGIN bob pw"
        ∷ codes "ADD_CONNECTION ann x.org 7"
        ∷ codes "DELETE_ACCOUNT bob"
        ∷ codes "LOGIN bob pw"
        ∷ [])
      home).0
    ≡ codes "REGISTER_SUCCESS"
      ∷ codes "LOGIN_SUCCESS"
      ∷ codes "CONNECTION_ADDED"
      ∷ codes "USER_DELETED_SUCCESSFULLY"
      ∷ codes "USERNAME_NOT_FOUND"
      ∷ []
unfolding program
dialogue = refl
