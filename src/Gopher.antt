-- ===== src/Gopher.antt =====
-- src/sacagalib/gopher.c: quoting of a path for the shell (Sanitize), the gopher type of a path
-- (TypePath).
pub mod Sanitize
pub mod TypePath
pub mod Menu
pub mod Sender
