-- ===== src/Common.antt =====
-- common/: the messages of the node's protocol, and the helpers that its packages share.
pub mod User
pub mod Base64
pub mod Password
pub mod Codes
