-- ===== src/Examples/Answers.antt =====
-- The answers for the development environment.
use lua_eclipse_ide.Base.{
  codes, [], ◌∷◌, some, true, false, ◌≡◌, refl, pos, if◌then◌else◌, length, ltb, ◌&&◌, eq_bytes,
}
use lua_eclipse_ide.Fault.{ok, fault, overflow, strcat, sprintf}
use lua_eclipse_ide.Text.{show_int, take_bytes, cut_at, contains}
use lua_eclipse_ide.LuaView.{
  boolean, number, string, table, end_of_table, entry, userdata, c_str, get_stack,
}
use lua_eclipse_ide.Inspect.{print_it}
use lua_eclipse_ide.Inspect.Ide.{
  ide_stack_trace, get_local_var_value, get_globals, global_values, trace_size,
}
use lua_eclipse_ide.Inspect.Ide.Trace.{ide_stack_trace-trace_text, trace_text, all_lines_fit}
use lua_eclipse_ide.Inspect.Ide.Values.{
  string_is, get_local_var_value-lookup_local, no_globals, boolean_global,
  get_globals-SameButBooleans, get_globals_forgets, userdata_is,
}
use lua_eclipse_ide.Examples.Scene.{lua, show_frame, main_frame}

trace_test : ide_stack_trace (lua (pos 66) []) ≡ ok (codes "a.lua|66|main|#a.lua|12|show|i|s|#")
unfolding ide_stack_trace show_int get_stack strcat sprintf eq_bytes
trace_test = refl

globals_test :
    get_globals (
      lua (pos 66) (
        (codes "n", number (codes "3"))
        ∷ (codes "t", table (entry (number (codes "1")) (string (codes "x")) end_of_table))
        ∷ (codes "off", boolean false)
        ∷ []))
    ≡ ok (
        codes
          "n=3|startglobaltable=startglobaltable|t[1]=x|endglobaltable=endglobaltable|off=true|")
unfolding get_globals print_it c_str take_bytes strcat sprintf cut_at contains
globals_test = refl

ide_stack_trace-trace_text_example : ide_stack_trace (lua (pos 66) []) ≡ (
    if all_lines_fit (show_frame ∷ main_frame (pos 66) ∷ [])
      && ltb (length (trace_text (show_frame ∷ main_frame (pos 66) ∷ []))) trace_size
    then ok (trace_text (show_frame ∷ main_frame (pos 66) ∷ []))
    else fault overflow)
ide_stack_trace-trace_text_example = ide_stack_trace-trace_text (lua (pos 66) [])

get_local_var_value-lookup_local_example :
    get_local_var_value (lua (pos 66) []) (pos 0) (some (codes "s"))
    ≡ ok (print_it (string (codes "hi")))
unfolding get_stack eq_bytes
get_local_var_value-lookup_local_example =
    get_local_var_value-lookup_local (lua (pos 66) []) (pos 0) (codes "s") {f = show_frame} refl
      refl (string_is (codes "hi"))

get_globals-SameButBooleans_example :
    get_globals (lua (pos 66) ((codes "on", boolean true) ∷ []))
    ≡ get_globals (lua (pos 66) ((codes "on", boolean false) ∷ []))
get_globals-SameButBooleans_example =
    get_globals-SameButBooleans (lua (pos 66) ((codes "on", boolean true) ∷ []))
      (lua (pos 66) ((codes "on", boolean false) ∷ [])) (number (codes "7")) [] refl refl
      (boolean_global (codes "on") true false no_globals)

get_globals_forgets_example :
    get_globals (lua (pos 66) ((codes "n", number (codes "3")) ∷ (codes "u", userdata) ∷ []))
    ≡ global_values
        (lua (pos 66) ((codes "n", number (codes "3")) ∷ (codes "u", userdata) ∷ []))
        ((codes "u", userdata) ∷ [])
        []
unfolding get_globals c_str strcat cut_at
get_globals_forgets_example =
    get_globals_forgets
      (lua (pos 66) ((codes "n", number (codes "3")) ∷ (codes "u", userdata) ∷ []))
      ((codes "n", number (codes "3")) ∷ []) [] (codes "u") (codes "n=3|") refl userdata_is refl
