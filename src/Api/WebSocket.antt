-- ===== src/Api/WebSocket.antt =====
-- src/api/websocket.cpp: the handshake's accept key, and single frames.
pub mod Sha1
pub mod Accept
pub mod Frame
