-- ===== src/Client.antt =====
-- src/client: the program that prompts a user and sends commands to a server.
pub mod Stdin
pub mod Console
pub mod Handlers
pub mod Dialogue
pub mod Keeps
pub mod Requests
pub mod Session
pub mod Served
pub mod Stream
pub mod Typed
pub mod Trustlines
pub mod Received
pub mod Address
pub mod Launch
