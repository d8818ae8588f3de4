-- ===== src/Shell.antt =====
-- kernel/shell/shell.c: the line editor with its history, and the choice of the command.
pub mod State
pub mod Command
pub mod History
pub mod Typing
pub mod Session
pub mod Hex
pub mod Names
mod Tests
