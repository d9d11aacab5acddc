-- ===== src/Lua.antt =====
-- Parts of the Lua interpreter that is compiled into the debugger (open-ldb/*.c).
pub mod Words
pub mod Chunk
pub mod Pattern
pub mod FloatingByte
pub mod Instructions
pub mod Checker
pub mod Stream
