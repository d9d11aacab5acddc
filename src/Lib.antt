-- ===== src/Lib.antt =====
-- open-ldb, the debugger of the Lua plug-ins for Eclipse: what it does at a prompt and for the IDE,
-- and the parts of its Lua interpreter that save and load compiled chunks, check their code, match
-- patterns and code the sizes of tables.
--
-- The program. The debugger is one process with the Lua interpreter in it. `main` of
-- open-ldb/LuaDebugger.cpp loads a script and installs `HookRoutine` as the interpreter's line
-- hook. At each new line the hook looks at `debuggerStates` (stepping or continuing) and at the
-- script's breakpoints, and may call `commandParser`, a loop that takes commands from the console
-- (type LDB) or from a socket (type IDE) until one of them resumes the script. The commands list
-- source lines, breakpoints, variables, globals, the stack and the call trace, and change the
-- breakpoints and the state. For the IDE the answers go through `ServerSocket`
-- (open-ldb/ServerSocket.cpp); events such as "suspended breakpoint" go through a second socket.
--
-- The files.
--   Base, Base/*: tests on numbers, lists, texts as lists of byte values, signed integers.
--   Text, Text/*: the C library as the source uses it (strtok, strstr at the front, atoi, the
--     numbers that printf and << print) and what holds of it.
--   Fault, Fault/Buffers: undefined behaviour and an exception that nothing catches, as values that
--     end the process; `strcat` and `sprintf` check the size of the buffer that the source gives.
--   ScriptMap: a `std::map` from script names, read by operator[] alone, is a function.
--   Breakpoints, Breakpoints/Laws: allScriptsBreakpoints, getBreakPointList, setBreakPointList, the
--     erase of the command clear and the search in HookRoutine.
--   Source, Source/*: allScriptsLines, setLineSourceList, readSourcefromStringBuffer, readFile,
--     getFileLine.
--   LuaView: what the lua_* calls show of the interpreter: frames with their local variables, the
--     globals as pairs in the order of lua_next, the stack, and the record of the hook's
--     activation. The debugger only reads it, so that it is a value that the hook is given.
--   Inspect, Inspect/*: the functions that list variables, globals, the stack and the call trace,
--     for the console (listLocalVariables, listGlobalVariable, drawStackTrace, stackDump, ...) and
--     for the IDE (ideStackTrace, getLocalVarValue, getGlobals, stackDumpForIde).
--   Command, Command/Spelling: the command constants and the chain of prefix tests in
--     commandParser.
--   Session, Session/*: the global variables as a record, actions on it with faults, each command
--     (Session/Execute), commandParser with its loop (Session/Parser), HookRoutine and a run of a
--     script as the list of its lines (Session/Hook). Orders and Dialogue are the debugger without
--     its details: a type, a mode, counts of breakpoints, the events told and the lines to come,
--     with what each command line orders and where the script stops. Stops, Faults, Keeps, Works,
--     Listing, Steps, Delivered, Taken, Gives, Steady, Moves, Rounds, Ends, Runs, Refines and
--     Follows hold what is proved of them, Fuel and Pieces of the end of the command loop and of a
--     command in too many pieces; Sockets reads a command with calls of recv, as a session does
--     with inputs.
--   Startup, Startup/*: `main` (Main, with its proofs in Main/Quiet, Main/Runs, Main/Ends and
--     Main/Follows), its arguments (Args), readFileIntoString (Script), errormessage, OutputTop,
--     whereAmI and listvars (Traceback), all of open-ldb/LuaDebugger.cpp.
--   Net, Net/*: open-ldb/Socket.cpp (Net) and open-ldb/ServerSocket.cpp with the blocks of main
--     that wait for the environment (Server), over the calls of the operating system as a record;
--     Held holds what is proved of the descriptors, from laws of that record; Client has
--     Socket::connect and set_non_blocking, which nothing calls.
--   Lua/Words, Lua/Chunk, Lua/Chunk/*: open-ldb/ldump.c (Dump) and open-ldb/lundump.c (Load) on the
--     prototypes of open-ldb/lobject.h; Format is the format, Saved, Parts, RoundTrip, Ends,
--     Refused and Watched the proofs.
--   Lua/Pattern, Lua/Pattern/*: the pattern matcher of open-ldb/lstrlib.c: Classes (single items),
--     Match (the matcher over explicit captures), Find (the two searches of `str_find_aux`); Sound,
--     Steps, Switch, Plain and Text the proofs.
--   Lua/FloatingByte: luaO_int2fb and luaO_fb2int of open-ldb/lobject.c.
--   Lua/Instructions: the opcodes, their modes and the fields of an instruction
--     (open-ldb/lopcodes.h, open-ldb/lopcodes.c).
--   Lua/Checker, Lua/Checker/*: the code checker of open-ldb/ldebug.c: the checks of one
--     instruction (Checker), the scan `symbexec` and luaG_checkcode (Symbexec), where luaV_execute
--     of open-ldb/lvm.c goes on after an instruction (Flow); Passed, Scan, Accept, Targets, Sound,
--     Inside, Reads, Rounds and Loaded the proofs.
--   Lua/Stream, Lua/Stream/*: luaZ_fill, luaZ_lookahead and luaZ_read of open-ldb/lzio.c over the
--     blocks of a reader, and LoadBlock of open-ldb/lundump.c over them; Read and Refines the
--     proofs.
--   Examples, Examples/*: tests, and the theorems at concrete scripts, states and sessions.
--
-- The choices. The inputs of a session (lines typed, or what recv gives) are a list, with `none`
-- for the end of the input or a failing call; output is a trace of what goes to the console and to
-- each socket; whether a call of send succeeds is a function of its number. The command loop takes
-- one input in every round but the last, so that the number of inputs plus one is enough fuel; at
-- the prompt the rounds go on for ever when the inputs are used up, and where that fuel runs out
-- all fuel does. A script in a buffer is read through a pointer to a text that is gone, which is a
-- fault. An `int` read by atoi that does not fit is a fault. Numbers of Lua are shown as the text
-- that %f gives, which is a field of the value. Chunks are those of a machine with the lowest byte
-- first, 4-byte int and Instruction, 8-byte size_t and lua_Number; a function takes bytes before it
-- loads those inside it, so that the length of the chunk is enough fuel; the loader takes
-- luaG_checkcode as an argument, which is any test or the model of it, with a verdict of its own
-- for a read outside an array; allocations succeed. The scan of symbexec moves on in every round,
-- so that `lastpc` is enough fuel; a read outside an array is a result of its own. In a pattern
-- every call of match inside match has a shorter pattern, so that its length plus one is enough
-- fuel; characters are those of the C locale.
--
-- Not modelled: what Lua does with a script, which `main` is given as the calls of the hook and the
-- errors; the standard error stream; the rest of the interpreter, a copy of Lua 5.1; and the
-- plug-ins in Java, which speak to the debugger through the sockets.
pub mod Base
pub mod Text
pub mod Fault
pub mod ScriptMap
pub mod Breakpoints
pub mod Source
pub mod LuaView
pub mod Inspect
pub mod Command
pub mod Session
pub mod Startup
pub mod Net
pub mod Lua
pub mod Examples
