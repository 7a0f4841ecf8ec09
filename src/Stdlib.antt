-- ===== src/Stdlib.antt =====
-- programs/stdlib: the library of user programs. Its strlen, strncpy and the like have the text of the
-- kernel's (CString), its memory routines that of Memory.
pub mod Numbers
pub mod Tokens
pub mod Readline
pub mod Commands
mod Tests
