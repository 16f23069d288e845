-- ===== src/Frame.antt =====
-- payloadFrameCodec.ts and payload-frame.ts: the frame around every message on the socket.
pub mod Types
pub mod Shape
pub mod Signing
pub mod Inversion
pub mod Codec
