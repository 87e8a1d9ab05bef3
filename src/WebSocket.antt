-- ===== src/WebSocket.antt =====
-- internal/engine/websocket.go: the frame parser and the inspector of WebSocket traffic. A time is a
-- number of nanoseconds. The Upgrader's buffers belong to the WebSocket library.
pub mod Frame
pub mod Inspector
pub mod Depth
pub mod Control
mod Tests
