-- ===== src/Client.antt =====
-- The chat client: A3/client_main.c.
pub mod State
pub mod Requests
pub mod Names
pub mod Connect
pub mod Commands
pub mod Roundtrip
pub mod Ends
pub mod Parse
pub mod Receiver
