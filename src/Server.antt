-- ===== src/Server.antt =====
-- The chat server: A3/server.h, A3/server_util.c and A3/server_main.c.
pub mod State
pub mod Reply
pub mod Rooms
pub mod Members
pub mod Requests
pub mod Register
pub mod Dispatch
pub mod Chat
pub mod Sweep
pub mod Start
pub mod Ready
pub mod Sound
pub mod Same
pub mod Chain
pub mod Walk
pub mod Find
pub mod Occupants
pub mod Leave
pub mod Remove
pub mod Enter
pub mod Answer
pub mod Switch
pub mod Create
pub mod CreateRequest
pub mod Listing
pub mod RoomListing
pub mod Registration
pub mod Loop
