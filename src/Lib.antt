-- ===== src/Lib.antt =====
-- A server of a peer-to-peer payment network, in C: clients register, log in, name accounts on
-- other servers as connections and grant them trustlines, and servers ask each other on behalf of
-- their users. Two programs share src/common: the server (src/server) and a client (src/client)
-- that prompts its user. This library models both.
--
-- A thread runs for each connection. The one for a client (`handle_client_connection`) reads a
-- text, cuts it at the first space, finds the handler in a table (src/server/commands_util.c) and
-- writes its answer, until the connection ends; the session of the connection is the only state
-- between commands, besides the files below the data directory. Two handlers open a connection to
-- another server, whose thread (`handle_server_connection`) reads one request and answers it.
--
-- The files, and what they model:
--   CString, Scan       C strings as lists of bytes, `snprintf`, `strcmp`, and `sscanf` of %Ns
--   Format              src/common/format_utils.c
--   Commands            src/common/command_defs.c
--   Files               the tree of files and the system calls that the server uses
--   Database            src/server/database.c
--   Server/Types        src/server/session_defs.h, src/server/server_config.h, the answers
--   Server/Account      src/server/client_services/client_command_handlers.c: REGISTER, LOGIN, LOGOUT
--                       and DELETE_ACCOUNT
--   Server/Trust        the same file: ADD_CONNECTION and SET_TRUSTLINE
--   Server/Remote       src/server/server_services/server_as_client: requests to other servers
--   Server/Peer         src/server/server_services/server_as_server: requests of other servers, and
--                       `get_domain_name` of src/server/network.c
--   Server/Dispatch     src/server/commands_util.c
--   Server/Connection   client_connection_handler.c and server_connection_handler.c, the threads
--   Server/Sessions, Server/Faults, Server/Peering   what holds of the server as a whole
--   Server/Registry     what the commands on accounts promise: a table of names and passwords, and the
--                       handlers as an implementation of it
--   Server/Threads      the handlers again, cut at their calls of the system (Handlers, Peers), and the
--                       threads that take turns at these calls (System)
--   Contexts            src/common/ssl_utils.c and src/server/network.c: what is set of the contexts of
--                       OpenSSL
--   Sockets             src/common/net_utils.c, src/server/connection_handler.c, `establish_connection`
--                       and `setup_ssl_client_connection`: the sockets and SSL objects held
--   Server/Main         src/server/main.c, with the set-up of src/server/network.c: the start of the
--                       server and its loop over connections
--   Client/Stdin        the standard input, as what the calls of `fgets` give
--   Client/Console      what the handlers of the client do with the console and the connection
--   Client/Handlers     src/client/command_handlers.c
--   Client/Dialogue     src/client/commands_util.c and src/client/connection_handler.c
--   Client/Address      src/client/parse_string_util.c
--   Client/Launch       src/client/main.c
--   Client/Keeps, Client/Requests, Client/Session   what holds of every dialogue
--   Client/Served, Client/Typed, Client/Received, Client/Trustlines   the client at a server that runs
--                       this program: what becomes of what a user types
--   Prelude             the names, lists and tests that all share
--   Tests               runs on concrete inputs, and the theorems at inputs that meet their conditions
-- The modules below a component hold its theorems. A function keeps its name in C, in lower case;
-- the parts of a long handler are functions of their own, named for what they do, each above a
-- comment with the C text where that is short.
--
-- How the state is modelled. A `Session` is the struct. A `Tree` maps the paths of files to nodes,
-- a path as the list of its names from the last to the first; `resolve` reads a path text, with
-- `.` and `..` taken by name and a relative path from the root. There are no symbolic links. A
-- handler takes the state and returns its answer and the new state; an `Outcome` is an answer, or
-- the fault of a read through NULL, of a read of a buffer that nothing was written to, or of a
-- write past a buffer, where C leaves the rest undefined. A buffer that is filled by `snprintf` is
-- cut to its size in the model as in C.
--
-- What is promised. `Registry` is the table of accounts as a client sees it: which names there
-- are, and their passwords. `request` is what REGISTER, LOGIN, LOGOUT and DELETE_ACCOUNT do to it
-- and to the session, with no file, path or buffer; `Represents` says when the files below the
-- data directory hold a table, and `meaning` which request a read of a connection makes.
-- ADD_CONNECTION and SET_TRUSTLINE, which ask other servers, have no such request.
--
-- The client is a state monad over a `Console`: the lines that `fgets` will give, the messages
-- that were shown, and what stands at the other end of the connection, which answers each request
-- as it likes (`Connection`). The server of this program is one such connection: `serving` for
-- requests that one read of the server takes whole, `stream` for those that it reads in parts,
-- where answers queue up. A `Result` says besides whether the client reads a buffer that nothing
-- was written to, or asks for ever at the end of its input; both keep the console, so that what
-- was sent before can be spoken of. `client_main` runs this dialogue, and ends as it does
-- (`Exit`).
--
-- Threads. A `Program` is a handler as the row of its calls of the system; any number of threads
-- take turns at such calls (`Turn`, `Step`, `Reach`), and new ones are started. A program that is
-- run without a break is the handler it stands for, so what is shown of handlers holds of a
-- command that no other thread comes between. What each single call keeps (`Keeps`, `Safe`) holds
-- at all times (Sessions, Strangers); Race has turns of two threads that collide. The uses of a
-- file from its opening to its closing are one call, as are a request to another server with its
-- answer, and a command of the shell.
--
-- What stands outside the program is a parameter. `Os` says which system calls are refused, how
-- many bytes a write takes, and what a shell does with a command (`RunsRm` states what `rm -rf` is
-- relied on for). `Network` says which servers can be reached and what they answer, and that other
-- threads may change the files in the meantime. The certificate of a peer is a `SubjectName`, the
-- two texts that are read of it; Server/Peer/Certificate has how they are read, and what is held
-- on the way.
--
-- Fuel and bounds. `make_dirs` runs on fuel one above the length of its path, which the parent
-- text makes shorter at each call: `make_dirs_lem` is its equation without fuel.
-- `interact_with_server` runs on fuel one above the number of lines left, of which each turn takes
-- one: `interact_with_server_lem` is its equation without fuel. All else recurs on its input.
-- `atoi` is the one of glibc: `strtol` of 64 bits, of which the low 32 bits are kept.
--
-- Not modelled: the initialisation and the clean-up of OpenSSL, and what it does with its
-- contexts; the text of prompts; the failure of an allocation; what becomes of an answer of no
-- bytes, which the server passes on as it is, and which counts as an answer here; a file that one
-- thread holds open while another removes it. `establish_connection` stands in two models: in
-- Sockets by what it holds and frees, and in `Network.connects` by whether it succeeds.
mod Prelude
pub mod CString
pub mod Scan
pub mod Format
pub mod Commands
pub mod Files
pub mod Database
pub mod Contexts
pub mod Sockets
pub mod Client
pub mod Server
mod Tests
