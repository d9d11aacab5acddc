-- ===== src/Inspect.antt =====
-- What the debugger prints of the interpreter's state: open-ldb/LuaDebugger.cpp, `printIt` and what
-- its listing functions share. `Console` has the functions for the prompt, `Ide` those that fill a
-- buffer for the development environment.
pub mod Console
pub mod Ide
use lua_eclipse_ide.Base.{
  Bytes, ◌++◌, codes, [], ◌∷◌, Bool, true, false, if◌then◌else◌, ℕ, length, ltb,
}
use lua_eclipse_ide.Text.{take_bytes}
use lua_eclipse_ide.LuaView.{
  LuaValue, nil, boolean, light_userdata, number, string, table, function, userdata, thread,
  type_name, c_str,
}

unfoldable pub print_it : LuaValue → Bytes
print_it (number t) = t
print_it (string s) = take_bytes 63 (c_str s)
print_it v = take_bytes 63 (type_name v)

-- The switch of the listing functions: numbers and strings are shown, all else is left empty.
unfoldable pub shown_value : LuaValue → Bytes
shown_value (number t) = t
shown_value (string s) = take_bytes 63 (c_str s)
shown_value v = []

abbrev pub truth : Bool → Bytes
truth b = if b then codes "true" else codes "false"

-- `lua_isfunction` and `lua_istable`.
abbrev pub is_function : LuaValue → Bool
is_function function = true
is_function v = false
