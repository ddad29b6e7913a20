-- ===== src/Proto.antt =====
-- src/ichat/proto: the two message formats, the comparison of signatures, and the messages that
-- the server makes itself.
mod Field
pub mod Icc2s
pub mod Ics2s
pub mod Signature
pub mod Login
