-- ===== src/Shell.antt =====
-- VinixOS/userspace/apps/shell: the interactive shell. Output is the list of the `sys_write` calls
-- that it makes, each with the bytes of its buffer. A C string is the list of its characters before
-- the NUL.
pub mod Output
pub mod Chunks
pub mod Console
pub mod Fields
pub mod Commands
pub mod Session
pub mod Line
pub mod Editor
pub mod Parse
pub mod Tokens
pub mod Words
