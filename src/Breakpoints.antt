-- ===== src/Breakpoints.antt =====
-- The breakpoint lists of open-ldb/LuaDebugger.cpp: `allScriptsBreakpoints`, `getBreakPointList`,
-- `setBreakPointList`, the loop of the `clear` command, and the test that `HookRoutine` makes.
pub mod Laws
use lua_eclipse_ide.Base.{
  Bool, true, false, Option, none, some, List, [], ◌∷◌, Bytes, ℤ, eq_int, if◌then◌else◌, ◌||◌,
}
use lua_eclipse_ide.ScriptMap.{assign, push_back}

abbrev pub Breakpoints : Type 0
Breakpoints = Bytes → List ℤ

unfoldable pub get_breakpoint_list : Breakpoints → Bytes → List ℤ
get_breakpoint_list all script_name = all script_name

unfoldable pub set_breakpoint_list : Breakpoints → Bytes → ℤ → Breakpoints
set_breakpoint_list all script_name line_number = push_back all script_name line_number

-- The loop over the vector: the list without the first entry for the line, if there is one.
unfoldable pub erase_line : ℤ → List ℤ → Option (List ℤ)
erase_line line [] = none
erase_line line (b ∷ list) =
    if eq_int b line
    then some list
    else elim (erase_line line list) [ some rest ↦ some (b ∷ rest) | none ↦ none ]

abbrev store_erased : Breakpoints → Bytes → Option (List ℤ) → Option Breakpoints
store_erased all script_name (some list) = some (assign all script_name list)
store_erased all script_name none = none

-- `none`: no breakpoint at that line, and the code changes and answers nothing.
unfoldable pub clear_breakpoint : Breakpoints → Bytes → ℤ → Option Breakpoints
unfolding get_breakpoint_list erase_line
clear_breakpoint all script_name line =
    store_erased all script_name (erase_line line (get_breakpoint_list all script_name))

-- The hook's loop over the list: whether an entry is the current line.
unfoldable pub at_breakpoint : ℤ → List ℤ → Bool
at_breakpoint line [] = false
at_breakpoint line (b ∷ list) = eq_int b line || at_breakpoint line list
