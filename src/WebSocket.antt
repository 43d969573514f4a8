-- ===== src/WebSocket.antt =====
-- src/main/pa_websocket.C and src/include/pa_websocket.h: the server's side of RFC 6455.
pub mod Buffer
pub mod Frame
pub mod Session
