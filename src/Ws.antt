-- ===== src/Ws.antt =====
-- crates/sutegi-ws: the frame codec, the connections of the reactor and its admission control.
pub mod Handshake
pub mod Protocol
pub mod Close
pub mod Conn
pub mod Admission
mod Examples
