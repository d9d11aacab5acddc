-- ===== src/Startup.antt =====
-- The program around the debugger (open-ldb/LuaDebugger.cpp): the command line (`main`), how a
-- script is read, and the report of an error.
pub mod Args
pub mod Script
pub mod Traceback
pub mod Main
