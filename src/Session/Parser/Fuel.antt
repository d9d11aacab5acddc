-- ===== src/Session/Parser/Fuel.antt =====
-- The fuel of the command loop is enough (`commandParser` of open-ldb/LuaDebugger.cpp): where it runs
-- out, the loop goes round for ever.
use lua_eclipse_ide.Base.{Option, some, Bool}
use lua_eclipse_ide.Fault.{Result, ok, fault}
use lua_eclipse_ide.Session.{Session}
use lua_eclipse_ide.Session.Parser.{Round, again, finished}

abbrev continued :
    Result (Round × Session) → (Bool → Session → Option (Result Session)) → Option (Result Session)
continued r next = elim r [
  | fault e ↦ some (fault e)
  | ok (q, t) ↦ elim q [ again e ↦ next e t | finished ↦ some (ok t) ]
]
