-- ===== src/Startup/Main.antt =====
-- `main` of open-ldb/LuaDebugger.cpp: the start, the script's run with its hooks, and the end. What
-- goes to the standard error stream is left out.
pub mod Quiet
pub mod Runs
pub mod Ends
pub mod Follows
use mathlib.Core.Option
use lua_eclipse_ide.Base.{
  ℕ, Bool, true, false, not, ◌&&◌, ◌+◌, Option, none, some, List, [], ◌∷◌, ◌++◌, Bytes, codes,
  length, ℤ, pos, eq_int, if◌then◌else◌,
}
use lua_eclipse_ide.Fault.{Result, ok, fault, Fault, socket_exception, null_pointer}
use lua_eclipse_ide.Text.{show_int, show_nat}
use lua_eclipse_ide.LuaView.{LuaState, Activation}
use lua_eclipse_ide.Source.{SourceLines, read_source_from_string_buffer, read_file}
use lua_eclipse_ide.Session.{
  DebuggerType, ldb, ide, Session, M, ◌>>=◌, ◌>>◌, pure, lift, raise, gets, print, send, event,
  at_prompt_or_ide,
}
use lua_eclipse_ide.Session.Hook.{run_hooks}
use lua_eclipse_ide.Net.Server.{Thrown, throws, returns}
use lua_eclipse_ide.Startup.Args.{Settings, read_command_line}
use lua_eclipse_ide.Startup.Script.{read_file_into_string, read_through}
use lua_eclipse_ide.Startup.Traceback.{errormessage}

-- What Lua does with a script: whether it loads, the calls of the hook while it runs, whether it
-- fails, and then the message on the stack and the state that `errormessage` sees.
pub record LuaRun : Type 0 where
  pub load_status : ℤ
  pub hooks : List (LuaState × Activation)
  pub call_status : ℤ
  pub message : Bytes
  pub at_error : LuaState

-- `luaL_dofile` with a name, and `luaL_loadbuffer` with a text and a name, then `lua_pcall`; each in
-- a new state with the standard libraries and the hook.
pub record Interpreter : Type 0 where
  pub run_file : Bytes → LuaRun
  pub run_buffer : Bytes → Bytes → LuaRun

-- What the two blocks that wait for the environment have thrown (`command_error` and `event_error`
-- of `Started`).
pub record Connections : Type 0 where
  pub commands : Thrown (Unit {0})
  pub events : Thrown (Unit {0})

-- A script that does not load is not run.
abbrev pub calls_of : LuaRun → List (LuaState × Activation)
calls_of r = if eq_int r.load_status (pos 0) then r.hooks else []

-- `error`, of type `int`.
abbrev pub error_of : LuaRun → ℤ
error_of r = if eq_int r.load_status (pos 0) && eq_int r.call_status (pos 0) then pos 0 else pos 1

abbrev bool_text : Bool → Bytes
bool_text true = codes "1"
bool_text false = codes "0"

abbrev kind_text : DebuggerType → Bytes
kind_text ldb = codes "0"
kind_text ide = codes "1"

abbrev pub not_null : Option Bytes → Result Bytes
not_null none = fault null_pointer
not_null (some s) = ok s

unfoldable pub set_kind : DebuggerType → M (Unit {0})
set_kind kind s = ok (tt, record s { kind = kind })

unfoldable pub store_scripts : SourceLines → M (Unit {0})
store_scripts scripts s = ok (tt, record s { scripts = scripts })

unfoldable pub greet : Settings → Bytes → M (Unit {0})
greet o name = do
  print (codes "Script name: " ++ name)
  print (codes " Buffer: " ++ bool_text o.buffer_script)
  print (codes " Debugger type: " ++ kind_text o.debugger)
  print (codes " Command port: " ++ show_int o.command_port)
  print (codes " Event port: " ++ (show_int o.event_port ++ codes "\n"))
  print (codes "Starting Lua Debugger " ++ (kind_text o.debugger ++ codes "\n"))

abbrev pub exiting : Bytes → Bytes → M (Unit {0})
exiting text why = print (text ++ (why ++ codes "\nExiting.\n"))

-- The message after a block that waits, or the `catch`.
unfoldable pub connected : ℤ → Bytes → Thrown (Unit {0}) → M (Unit {0})
connected port text (returns _) = print (codes "accepted socket " ++ (show_int port ++ codes "\n"))
connected port text (throws why) = exiting text why

-- The `catch` behind a call that writes to the event socket.
abbrev pub recover : Bytes → Session → Result (Unit {0} × Session) → Result (Unit {0} × Session)
recover text s (ok r) = ok r
recover text s (fault socket_exception) =
    exiting text (codes "Could not write to socket.") (record s { sent = s.sent + 1 })
recover text s (fault e) = fault e

unfoldable pub caught : Bytes → M (Unit {0}) → M (Unit {0})
caught text m s = recover text s (m s)

unfoldable pub start_ide : Settings → Connections → M (Unit {0})
start_ide o c = do
  connected o.command_port (codes "Exception was caught:") c.commands
  connected o.event_port (codes "Exception was caught starting event socket server:") c.events
  caught (codes "Exception was caught sending started event:") (send (event (codes "started\n")))

-- The two branches on `bufferScript`, up to the run of the script.
unfoldable pub read_script : Option Bytes → Bytes → Interpreter → Bool → M LuaRun
read_script file name lua true = do
  text ← lift (read_through (read_file_into_string file))
  scripts ← gets (λ s. s.scripts)
  new_scripts ← lift (read_source_from_string_buffer scripts text name)
  store_scripts new_scripts
  pure (lua.run_buffer text name)
read_script file name lua false = do
  print (codes "running Lua script " ++ (name ++ codes "\n"))
  scripts ← gets (λ s. s.scripts)
  new_scripts ← lift (read_file scripts file name)
  store_scripts new_scripts
  pure (lua.run_file name)

unfoldable pub prepare : Settings → Option Bytes → Interpreter → Connections → M LuaRun
prepare o file lua c = do
  set_kind o.debugger
  name ← lift (not_null o.script_name)
  greet o name
  at_prompt_or_ide (pure tt) (start_ide o c)
  read_script file name lua o.buffer_script

abbrev pub print_report : Option Bytes → M (Unit {0})
print_report none = pure tt
print_report (some text) = print text

abbrev or_empty : Option Bytes → Bytes
or_empty none = []
or_empty (some s) = s

-- For a debugger at the prompt nothing has accepted a connection: the event socket is invalid, and
-- the call of `send` fails.
unfoldable pub report_error : Bytes → LuaRun → M (Unit {0})
report_error name r = do
  caught (codes "Exception was caught sending syntaxerror event:") (
      at_prompt_or_ide (raise socket_exception)
        (send (event (codes "syntaxerror | " ++ (name ++ (codes " | " ++ r.message))))))
  text ← lift (errormessage r.at_error)
  print_report text

-- What follows the run: an error is reported for a script in a buffer alone.
unfoldable pub finish : Settings → LuaRun → M ℤ
finish o r =
    if o.buffer_script
    then if eq_int (error_of r) (pos 0)
      then pure (pos 0)
      else report_error (or_empty o.script_name) r >> pure (pos 1)
    else pure (pos 0)

abbrev pub after_run : M ℤ → Option (Result Session) → Option (Result (ℤ × Session))
after_run m none = none
after_run m (some (fault e)) = some (fault e)
after_run m (some (ok s)) = some (m s)

abbrev pub run_script : Settings → Result (LuaRun × Session) → Option (Result (ℤ × Session))
run_script o (fault e) = some (fault e)
run_script o (ok (r, s)) = after_run (finish o r) (run_hooks (calls_of r) s)

abbrev each_arg : List Bytes → Bytes
each_arg [] = codes "\n"
each_arg (a ∷ args) = codes " " ++ (a ++ (codes "\n" ++ each_arg args))

abbrev command_text : List Bytes → Bytes
command_text [] = []
command_text (name ∷ args) = name ++ each_arg args

unfoldable pub usage : List Bytes → M ℤ
usage argv = do
  print (codes "argc=" ++ (show_nat (length argv) ++ codes "\n"))
  print (
      codes
        "All params must be given:\n  -n scriptName -b true/false -t ide/ldb -c commandPort -e eventPort\n")
  print (command_text argv)
  pure (pos 1)

abbrev pub run_settings :
    Option Bytes
    → Interpreter
    → Connections
    → Session
    → Result Settings
    → Option (Result (ℤ × Session))
run_settings file lua c s (fault e) = some (fault e)
run_settings file lua c s (ok o) = run_script o (prepare o file lua c s)

abbrev pub or_usage :
    List Bytes → Session → Option (Option (Result (ℤ × Session))) → Option (Result (ℤ × Session))
or_usage argv s none = some (usage argv s)
or_usage argv s (some r) = r

-- The result is the exit code; `none` is a command loop that goes round for ever.
unfoldable pub main :
    List Bytes → Option Bytes → Interpreter → Connections → Session → Option (Result (ℤ × Session))
main argv file lua c s =
    or_usage argv s (Option.map (run_settings file lua c s) (read_command_line argv))
