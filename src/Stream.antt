-- ===== src/Stream.antt =====
-- shared/socket: the streaming of large results over a socket, window by window.
pub mod Credits
pub mod Window
pub mod Buffers
pub mod Answers
pub mod Pulls
