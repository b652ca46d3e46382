-- ===== src/Server/Connection.antt =====
-- src/server/client_services/client_connection_handler.c and
-- src/server/server_services/server_as_server/server_connection_handler.c: the threads that read
-- commands from a connection.
pub mod Split
pub mod Faults
pub mod Reads
use thing.Prelude.{
  ℕ, Bool, true, false, Option, none, some, List, [], ◌∷◌, Bytes, take, length, ltb, ◌==◌,
  if◌then◌else◌,
}
use thing.CString.{cstr, is_empty}
use thing.Files.{Tree}
use thing.Server.Peer.{SubjectName}
use thing.Server.Dispatch.{client_dispatch_command, server_as_server_dispatch_command}
use thing.Server.Types.{Server, Session, no_session, State, Outcome, replied, faulted, text}

-- The command in front of the first space, and the arguments behind it, NULL if there is none.
unfoldable pub split_command : Bytes → Bytes × Option Bytes
split_command [] = ([], none)
split_command (c ∷ s) =
    let (command, arguments) = split_command s in
    if c == b' ' then ([], some s) else (c ∷ command, arguments)

-- How a thread ends: it frees the connection, or the process is gone.
pub data End : Type 0 where
  closed crashed : End

module _ (srv : Server) where
  -- What one read of the client's connection leads to.
  unfoldable pub handle_request : Bytes → State → Outcome × State
  handle_request received st =
      let (command, arguments) = split_command (cstr (take 255 received)) in
      client_dispatch_command srv command arguments st

  -- The rest of the loop runs only behind a reply.
  unfoldable pub continue :
      (Outcome × State) → (State → List Bytes × End × State) → List Bytes × End × State
  continue (faulted, st) rest = ([], crashed, st)
  continue (replied r, st) rest = let (sent, end, last) = rest st in (text r ∷ sent, end, last)

  -- The loop over what successive calls of `SSL_read` give; it ends at the first that reads
  -- nothing. The result has the texts sent.
  unfoldable pub serve : List Bytes → State → List Bytes × End × State
  serve [] st = ([], closed, st)
  serve (received ∷ rest) st =
      let later = continue (handle_request received st) (serve rest) in
      if is_empty received then ([], closed, st) else later

  -- The thread: `acknowledged` says whether the first message could be sent.
  unfoldable pub handle_client_connection : Bool → List Bytes → Tree → List Bytes × End × State
  handle_client_connection acknowledged reads t =
      let st : State = record { session = no_session; tree = t } in
      if acknowledged then serve reads st else ([], closed, st)

  -- The one read of a peer's connection into a buffer of 256 bytes. The terminating NUL is
  -- written behind the bytes read: past the buffer at 256 bytes, and before it at an error (-1).
  unfoldable pub handle_server_connection :
      Option SubjectName → Option Bytes → Tree → Outcome × Tree
  handle_server_connection subject none t = (faulted, t)
  handle_server_connection subject (some received) t =
      let (command, arguments) = split_command (cstr received) in
      if ltb (length received) 256
      then server_as_server_dispatch_command srv subject command arguments t
      else (faulted, t)
