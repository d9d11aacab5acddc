-- ===== src/Startup/Main/Ends.antt =====
-- What `main` of open-ldb/LuaDebugger.cpp does behind the run of a script: the exit code, and the
-- report of an error of a script in a buffer.
use lua_eclipse_ide.Base.{
  Bool, ◌&&◌, not, List, [], ◌∷◌, ◌++◌, codes, ℤ, pos, eq_int, if◌then◌else◌,
}
use lua_eclipse_ide.Session.{Session}
use lua_eclipse_ide.Session.Orders.{Order, tell_ide}
use lua_eclipse_ide.Startup.Args.{Settings}
use lua_eclipse_ide.Startup.Main.{LuaRun, error_of, or_empty}
use lua_eclipse_ide.Startup.Main.Quiet.{Quiet}

abbrev failed : LuaRun → Bool
failed r = not (eq_int (error_of r) (pos 0))

-- Errors count for a script in a buffer alone.
abbrev pub exit_code : Settings → LuaRun → ℤ
exit_code o r = if o.buffer_script && failed r then pos 1 else pos 0

abbrev pub end_orders : Settings → LuaRun → List Order
end_orders o r =
    if o.buffer_script && failed r
    then tell_ide
        ((codes "syntaxerror | " ++ (or_empty o.script_name ++ (codes " | " ++ r.message))) ∷ [])
      ∷ []
    else []
