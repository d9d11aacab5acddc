-- ===== src/Inspect/Console.antt =====
-- The listings at the prompt: `listLocalVariables`, `listLocalVariable`, `listGlobalVariables`,
-- `listGlobalVariable`, `drawStackTrace`, `stackDump`, `printBreakpoints`.
use lua_eclipse_ide.Base.{
  ℕ, ◌+◌, Bytes, ◌++◌, codes, List, [], ◌∷◌, Option, none, some, Bool, true, false, if◌then◌else◌,
  eq_bytes, ℤ, not,
}
use lua_eclipse_ide.Fault.{Result, ok, ◌>>=◌, strcat}
use lua_eclipse_ide.Text.{show_nat, show_int}
use lua_eclipse_ide.LuaView.{
  LuaValue, boolean, number, string, table, Entries, end_of_table, entry, Frame, LuaState,
  type_name, c_str, to_boolean, get_stack, top_number,
}
use lua_eclipse_ide.Inspect.{print_it, shown_value, truth, is_function}

-- `printf("%s %s=%s\n", type, name, value)`.
abbrev variable_line : Bytes → LuaValue → Bytes
variable_line name v =
    type_name v ++ (codes " " ++ (name ++ (codes "=" ++ (shown_value v ++ codes "\n"))))

abbrev or_message : Bytes → Bool × Bytes → Bytes
or_message message (true, text) = text
or_message message (false, text) = text ++ message

-- A loop over variables gives whether it found one, and what it printed.
pub locals_loop : List (Bytes × LuaValue) → Bool × Bytes
locals_loop [] = (false, [])
locals_loop ((name, v) ∷ rest) = (true, variable_line name v ++ (locals_loop rest).1)

abbrev locals_of : Option Frame → List (Bytes × LuaValue)
locals_of none = []
locals_of (some f) = f.locals

unfoldable pub list_local_variables : LuaState → ℤ → Bytes
unfolding locals_loop
list_local_variables l level =
    codes "Finding locals:\n"
    ++ or_message (codes "No locals found\n") (locals_loop (locals_of (get_stack l level)))

pub local_loop : Bytes → List (Bytes × LuaValue) → Bool × Bytes
local_loop wanted [] = (false, [])
local_loop wanted ((name, v) ∷ rest) =
    let (found, text) = local_loop wanted rest in
    if not (eq_bytes name wanted) then (found, text) else (true, variable_line name v ++ text)

unfoldable pub list_local_variable : LuaState → ℤ → Bytes → Bytes
unfolding local_loop
list_local_variable l level wanted =
    codes "Find local variable "
    ++ (wanted
        ++ (codes ":\n"
            ++ or_message (codes "Did not find local " ++ (wanted ++ codes "\n"))
                (local_loop wanted (locals_of (get_stack l level)))))

pub globals_loop : List (Bytes × LuaValue) → Bool × Bytes
globals_loop [] = (false, [])
globals_loop ((name, v) ∷ rest) =
    let (found, text) = globals_loop rest in
    if is_function v then (found, text) else (true, variable_line (c_str name) v ++ text)

unfoldable pub list_global_variables : LuaState → Bytes
unfolding globals_loop
list_global_variables l =
    codes "Finding globals:\n" ++ or_message (codes "No globals found\n") (globals_loop l.globals)

pub table_lines : Bytes → Entries → Bytes
table_lines name end_of_table = []
table_lines name (entry k v rest) =
    codes "  "
    ++ (name
        ++ (codes "["
            ++ (print_it k
                ++ (codes "]=" ++ (print_it v ++ (codes ", \n" ++ table_lines name rest))))))

abbrev global_text : Bytes → LuaValue → Bytes
global_text name (table entries) =
    codes "table " ++ (name ++ (codes " {\n" ++ (table_lines name entries ++ codes "}\n")))
global_text name v = variable_line name v

pub global_loop : Bytes → List (Bytes × LuaValue) → Bool × Bytes
global_loop wanted [] = (false, [])
global_loop wanted ((name, v) ∷ rest) =
    let (found, text) = global_loop wanted rest in
    if not (eq_bytes (c_str name) wanted)
    then (found, text)
    else (true, global_text (c_str name) v ++ text)

unfoldable pub list_global_variable : LuaState → Bytes → Bytes
unfolding global_loop table_lines
list_global_variable l wanted =
    codes "Find global variable "
    ++ (wanted
        ++ (codes ":\n"
            ++ or_message (codes "Did not find global " ++ (wanted ++ codes "\n"))
                (global_loop wanted l.globals)))

-- `if (field) strcat(szDesc, field)`, with `char szDesc[256]`.
abbrev describe : Option Bytes → Bytes → Result Bytes
describe none text = ok text
describe (some field) text = strcat 256 text field

frame_description : Frame → Result Bytes
frame_description f = do
  a ← describe f.name []
  b ← strcat 256 a (codes ",")
  c ← describe f.name_what b
  d ← strcat 256 c (codes ",")
  e ← describe f.what d
  g ← strcat 256 e (codes ",")
  strcat 256 g f.source

pub trace_lines : ℕ → List Frame → Result Bytes
trace_lines level [] = ok []
trace_lines level (f ∷ rest) = frame_description f >>= λ description.
    trace_lines (level + 1) rest >>= λ text. ok (
      show_nat level
      ++ (codes "# "
          ++ (description
              ++ (codes ","
                  ++ (show_int f.current_line
                      ++ (codes "," ++ (show_int f.line_defined ++ (codes "\n" ++ text))))))))

unfoldable pub draw_stack_trace : LuaState → Result Bytes
unfolding trace_lines frame_description
draw_stack_trace l = trace_lines 0 l.frames >>= λ text.
    ok (codes "level# name,type,language,source,currentline,linedefinedat\n" ++ text)

-- One index of the stack, as `stackDump` prints it.
abbrev dump_value : LuaState → ℕ → LuaValue → Bytes
dump_value l i (string s) = show_nat i ++ (codes ":`" ++ (c_str s ++ codes "'\n"))
dump_value l i (boolean b) =
    show_nat i ++ (codes ": " ++ (truth (to_boolean (some (boolean b))) ++ codes "\n"))
dump_value l i (number t) = show_nat i ++ (codes ": " ++ (top_number l ++ codes "\n"))
dump_value l i v = show_nat i ++ (codes ": " ++ (type_name v ++ codes "\n"))

-- From the top down: the values behind the first are printed before it.
pub dump_from : LuaState → ℕ → List LuaValue → Bytes
dump_from l i [] = []
dump_from l i (v ∷ values) = dump_from l (i + 1) values ++ dump_value l i v

unfoldable pub stack_dump : LuaState → Bytes
unfolding dump_from
stack_dump l = dump_from l 1 l.stack

pub breakpoint_lines : Bytes → List ℤ → Bytes
breakpoint_lines script_name [] = []
breakpoint_lines script_name (b ∷ bp) =
    codes " "
    ++ (script_name
        ++ (codes " line " ++ (show_int b ++ (codes "\n" ++ breakpoint_lines script_name bp))))

unfoldable pub print_breakpoints : Bytes → List ℤ → Bytes
unfolding breakpoint_lines
print_breakpoints script_name [] = codes "no breakpoints set\n"
print_breakpoints script_name (b ∷ bp) =
    codes "printBreakpoints: \n" ++ breakpoint_lines script_name (b ∷ bp)
