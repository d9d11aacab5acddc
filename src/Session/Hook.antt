-- ===== src/Session/Hook.antt =====
-- `HookRoutine` of open-ldb/LuaDebugger.cpp, which Lua calls on every line, and a run of a script as
-- the calls that it makes.
pub mod Runs
pub mod Refines
pub mod Follows
pub mod Works
use lua_eclipse_ide.Base.{
  ℕ, ◌==◌, Bytes, ◌++◌, codes, List, [], ◌∷◌, Option, none, some, Bool, true, false, not,
  if◌then◌else◌, ℤ,
}
use lua_eclipse_ide.Fault.{Result, ok, fault}
use lua_eclipse_ide.Text.{show_int, show_nat}
use lua_eclipse_ide.Breakpoints.{at_breakpoint, get_breakpoint_list}
use lua_eclipse_ide.Source.{get_file_line}
use lua_eclipse_ide.LuaView.{LuaState, Activation}
use lua_eclipse_ide.Session.Parser.{command_parser}
use lua_eclipse_ide.Session.{
  Session, M, ◌>>=◌, ◌>>◌, pure, lift, gets, print, send, event, at_prompt_or_ide, stepping,
  continuing,
}

-- Ends a call whose action has run: the parser goes on from its state.
abbrev pub then_parse :
    LuaState → Activation → Result (Unit {0} × Session) → Option (Result Session)
then_parse l ar (ok (_, s)) = command_parser l ar s
then_parse l ar (fault e) = some (fault e)

abbrev without_parse : Result (Unit {0} × Session) → Option (Result Session)
without_parse (ok (_, s)) = some (ok s)
without_parse (fault e) = some (fault e)

unfoldable pub announce_breakpoint : Activation → M (Unit {0})
announce_breakpoint ar = do
  scripts ← gets (λ s. s.scripts)
  text ← lift (get_file_line scripts ar.source ar.current_line)
  at_prompt_or_ide
      (print (
          codes "\nstopping at breakpoint in "
          ++ (ar.source ++ (codes " line " ++ (show_int ar.current_line ++ codes " \n"))))
        >> print (text ++ codes "\n"))
      (send (event (codes "resumed client\n"))
        >> send (
            event (
              codes "resumed client\nsuspended breakpoint "
              ++ (show_int ar.current_line ++ codes "\n"))))

unfoldable pub announce_step : Activation → M (Unit {0})
announce_step ar = do
  scripts ← gets (λ s. s.scripts)
  text ← lift (get_file_line scripts ar.source ar.current_line)
  at_prompt_or_ide (print (text ++ codes "\n")) (pure tt)

-- `if (debuggerStates == CONTINUING)`: the script stops at a breakpoint alone.
abbrev at_line_continuing : LuaState → Activation → Session → Option (Result Session)
at_line_continuing l ar s =
    if at_breakpoint ar.current_line (get_breakpoint_list s.breakpoints ar.source)
    then then_parse l ar (announce_breakpoint ar s)
    else some (ok s)

-- `else if (debuggerStates == STEPPING)`: the script stops at every line.
abbrev at_line_stepping : LuaState → Activation → Session → Option (Result Session)
at_line_stepping l ar s =
    if s.state == stepping
    then then_parse l ar (announce_step ar s)
    else without_parse (print (codes "Error: unknown state " ++ show_nat s.state) s)

unfoldable pub hook_routine : LuaState → Activation → Session → Option (Result Session)
hook_routine l ar s =
    if not ar.is_line_event
    then some (ok s)
    else if s.state == continuing
    then at_line_continuing l ar s
    else at_line_stepping l ar s

abbrev go_on :
    (Session → Option (Result Session)) → Option (Result Session) → Option (Result Session)
go_on next (some (ok s)) = next s
go_on next other = other

-- A script's run: the hook is called with each of these, in their order, until one ends the process.
unfoldable pub run_hooks : List (LuaState × Activation) → Session → Option (Result Session)
run_hooks [] s = some (ok s)
run_hooks ((l, ar) ∷ calls) s = go_on (run_hooks calls) (hook_routine l ar s)
