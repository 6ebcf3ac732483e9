-- ===== src/Cmd.antt =====
-- cmd/goafp/main.go: the commands.
pub mod Target
pub mod Output
pub mod Connect
pub mod Commands
pub mod Closed
pub mod Main
pub mod Streams
pub mod Uploads
