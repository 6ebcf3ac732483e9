-- ===== src/Tests.antt =====
-- Runs of the program's code on concrete inputs, and the theorems applied to them.
pub mod Dsi
pub mod Parsers
pub mod Files
pub mod Nfsfs
pub mod Uam
pub mod NfsFiles
pub mod NfsPaths
pub mod Srp
pub mod Uploads
pub mod Cmd
pub mod Streams
pub mod Puts
pub mod Links
