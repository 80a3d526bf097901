-- ===== src/Start.antt =====
-- The start of the server: `main` of src/server/sacagawea.c (the Linux branches), with its options,
-- `become_daemon`, `close_all` and the loop over `listen_descriptor`.
pub mod Options
pub mod Daemon
pub mod Setup
pub mod Loop
pub mod Main
pub mod Windows
