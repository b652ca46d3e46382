-- ===== src/Server/Threads.antt =====
-- The threads of the server at work at once: the handlers, cut at their calls of the system, and
-- the steps in which threads take turns at the files. A handler is cut between two calls; the uses
-- of a file from its opening to its closing are one call, as are a request to another server with
-- its answer, and a command of the shell.
pub mod Program
pub mod Handlers
pub mod Peers
pub mod Alone
pub mod Accounts
pub mod Refines
pub mod System
pub mod Asking
pub mod Results
pub mod Sessions
pub mod Directories
pub mod Uninterrupted
pub mod Guarded
pub mod Untouched
pub mod Strangers
pub mod Race
