-- ===== src/Afp.antt =====
-- internal/afp: the AFP commands and their replies.
pub mod Builder
pub mod Reader
pub mod Text
pub mod Codes
pub mod Entry
pub mod ServerInfo
pub mod Link
pub mod Session
pub mod Volume
pub mod Fork
pub mod Write
pub mod Symlink
pub mod Srp
pub mod Uam
