-- ===== src/Wire.antt =====
-- The messages of A3/defs.h: the numbers of the control messages, the limits, and the layout of
-- `struct control_msghdr` (four 16-bit fields in network byte order, then the text).
pub mod Header
pub mod Msg
pub mod Roundtrip
