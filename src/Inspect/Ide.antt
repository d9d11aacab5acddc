-- ===== src/Inspect/Ide.antt =====
-- The answers for the development environment: `ideStackTrace`, `getLocalVarValue`, `getGlobals` and
-- `stackDumpForIde` of open-ldb/LuaDebugger.cpp, which fill the caller's character buffer.
pub mod Trace
pub mod Values
use lua_eclipse_ide.Base.{
  ℕ, zero, suc, ◌+◌, Bytes, ◌++◌, codes, List, [], ◌∷◌, Option, none, some, Bool, true, false,
  if◌then◌else◌, length, eq_bytes, ℤ, pos, ◌||◌, not, get_elem?,
}
use lua_eclipse_ide.Fault.{Result, ok, fault, null_pointer, ◌>>=◌, strcat, sprintf}
use lua_eclipse_ide.Text.{show_int, contains, take_bytes}
use lua_eclipse_ide.LuaView.{
  LuaValue, nil, boolean, number, string, table, Entries, end_of_table, entry, function, Frame,
  LuaState, type_name, c_str, to_boolean, get_stack, top_number, at_index,
}
use lua_eclipse_ide.Inspect.{print_it, truth}

-- `char str[2048]` of the caller.
abbrev pub trace_size : ℕ
trace_size = 2048

-- The names of the local variables, temporaries left out.
pub trace_locals : List (Bytes × LuaValue) → Bytes → Result Bytes
trace_locals [] str = ok str
trace_locals ((name, v) ∷ rest) str =
    (if eq_bytes name (codes "(*temporary)")
      then ok str
      else strcat trace_size str name >>= λ named. strcat trace_size named (codes "|"))
    >>= trace_locals rest

abbrev name_or_main : Bytes → Bytes
name_or_main [] = codes "main"
name_or_main (c ∷ s) = c ∷ s

-- The chain of tests on `name`, `namewhat` and `what`; `source` is never null.
abbrev pub function_name : Option Bytes → Option Bytes → Option Bytes → Bytes → Bytes
function_name (some name) name_what what source = name
function_name none (some name_what) what source = name_or_main name_what
function_name none none (some what) source = what
function_name none none none source = source

-- `char number[4]`, then `sprintf(number, "%i", ar.currentline)`.
pub line_text : ℤ → Result Bytes
line_text line = sprintf 4 (show_int line)

pub trace_frame : Frame → Bytes → Result Bytes
trace_frame f str = do
  a ← strcat trace_size str f.source
  b ← strcat trace_size a (codes "|")
  digits ← line_text f.current_line
  c ← strcat trace_size b digits
  d ← strcat trace_size c (codes "|")
  e ← strcat trace_size d (function_name f.name f.name_what f.what f.source)
  g ← strcat trace_size e (codes "|")
  h ← trace_locals f.locals g
  strcat trace_size h (codes "#")

abbrev trace_level : Option Frame → Bytes → Result Bytes
trace_level none str = ok str
trace_level (some f) str = trace_frame f str

-- From level `n - 1` down to level 0; the loop would end at a level that is not there.
pub trace_levels : LuaState → ℕ → Bytes → Result Bytes
trace_levels l zero str = ok str
trace_levels l (suc n) str = trace_level (get_stack l (pos n)) str >>= trace_levels l n

unfoldable pub ide_stack_trace : LuaState → Result Bytes
unfolding trace_levels trace_frame trace_locals line_text
ide_stack_trace l = trace_levels l (length l.frames) []

-- `char val[8096]` of the caller.
abbrev pub value_size : ℕ
value_size = 8096

-- `name[key]=value|` for each entry, through `char buf[80]`.
pub table_values : Bytes → Entries → Bytes → Result Bytes
table_values name end_of_table val = ok val
table_values name (entry k v rest) val =
    (do
      buf ← sprintf 80 (name ++ codes "[")
      a ← strcat value_size val buf
      b ← strcat value_size a (print_it k)
      c ← strcat value_size b (codes "]=")
      d ← strcat value_size c (print_it v)
      strcat value_size d (codes "|"))
    >>= table_values name rest

-- The switch on the value's type. `i` is the loop's counter, already past the variable, and is what
-- the code hands to `lua_toboolean`.
pub local_value : LuaState → ℕ → Bytes → LuaValue → Result Bytes
local_value l i name (number t) = strcat value_size [] t
local_value l i name (string s) = strcat value_size [] (take_bytes 63 (c_str s))
local_value l i name (boolean b) =
    strcat value_size [] (truth (to_boolean (at_index (l.stack ++ boolean b ∷ []) i)))
local_value l i name (table entries) = table_values name entries []
local_value l i name v =
    strcat value_size [] (codes "type " ++ (type_name v ++ codes " not yet displayable"))

pub local_value_loop : LuaState → ℕ → Option Bytes → List (Bytes × LuaValue) → Bytes → Result Bytes
local_value_loop l i var [] val = ok val
local_value_loop l i none ((name, v) ∷ rest) val = fault null_pointer
local_value_loop l i (some var) ((name, v) ∷ rest) val =
    let later = local_value_loop l (i + 1) (some var) rest val in
    if eq_bytes var name then local_value l (i + 1) name v else later

abbrev local_in : LuaState → Option Bytes → Option Frame → Bytes → Result Bytes
local_in l var none val = ok val
local_in l var (some f) val = local_value_loop l 1 var f.locals val

unfoldable pub get_local_var_value : LuaState → ℤ → Option Bytes → Result Bytes
unfolding local_value_loop local_value table_values
get_local_var_value l level var =
    strcat value_size [] (codes "notFound") >>= local_in l var (get_stack l level)

-- `strcat(val, name); strcat(val, "="); strcat(val, value); strcat(val, "|")`.
abbrev pub add_pair : Bytes → Bytes → Bytes → Result Bytes
add_pair name value val = do
  a ← strcat value_size val name
  b ← strcat value_size a (codes "=")
  c ← strcat value_size b value
  strcat value_size c (codes "|")

-- One entry of a global table, through `char buf[80]` and `char tmpbuf[200]`; an entry with a
-- newline or a carriage return in it is left out.
abbrev global_entry : Bytes → LuaValue → LuaValue → Bytes → Result Bytes
global_entry name k v val = do
  buf ← sprintf 80 (name ++ codes "[")
  a ← strcat 200 [] buf
  b ← strcat 200 a (print_it k)
  c ← strcat 200 b (codes "]=")
  d ← strcat 200 c (print_it v)
  tmpbuf ← strcat 200 d (codes "|")
  if contains b'\n' tmpbuf || contains 13 tmpbuf then ok val else strcat value_size val tmpbuf

pub global_entries : Bytes → Entries → Bytes → Result Bytes
global_entries name end_of_table val = ok val
global_entries name (entry k v rest) val = global_entry name k v val >>= global_entries name rest

pub entries_of : List (Bytes × LuaValue) → Entries
entries_of [] = end_of_table
entries_of ((name, v) ∷ rest) = entry (string name) v (entries_of rest)

-- What is on the stack in the loop over the globals: their table, the key and the value.
abbrev with_global : LuaState → Bytes → LuaValue → List LuaValue
with_global l name v = l.stack ++ table (entries_of l.globals) ∷ string name ∷ v ∷ []

-- The body of the loop for one global. A boolean is read at index 1, and a value of a type with no
-- case of its own replaces all that is in the buffer.
pub global_value : LuaState → Bytes → LuaValue → Bytes → Result Bytes
global_value l name function val = ok val
global_value l name (number t) val = add_pair (c_str name) t val
global_value l name (string s) val = add_pair (c_str name) (take_bytes 63 (c_str s)) val
global_value l name (boolean b) val =
    add_pair (c_str name) (truth (to_boolean (at_index (with_global l name (boolean b)) 1))) val
global_value l name (table entries) val = do
  a ← strcat value_size val (codes "startglobaltable=startglobaltable|")
  b ← global_entries (c_str name) entries a
  strcat value_size b (codes "endglobaltable=endglobaltable|")
global_value l name v val =
    strcat value_size [] (codes "type " ++ (type_name v ++ codes " = not yet displayable"))

pub global_values : LuaState → List (Bytes × LuaValue) → Bytes → Result Bytes
global_values l [] val = ok val
global_values l ((name, v) ∷ rest) val = global_value l name v val >>= global_values l rest

unfoldable pub get_globals : LuaState → Result Bytes
unfolding global_values global_value global_entries entries_of
get_globals l = global_values l l.globals []

-- `char val[1024]` of the caller.
abbrev pub stack_size : ℕ
stack_size = 1024

abbrev stack_value : LuaState → LuaValue → Bytes
stack_value l (string s) = c_str s
stack_value l (boolean b) = truth b
stack_value l (number t) = top_number l
stack_value l v = type_name v

pub stack_values : LuaState → List LuaValue → Bytes → Result Bytes
stack_values l [] results = ok results
stack_values l (v ∷ values) results = strcat stack_size results (stack_value l v) >>= λ a.
    strcat stack_size a (codes "|") >>= stack_values l values

unfoldable pub stack_dump_for_ide : LuaState → Result Bytes
unfolding stack_values
stack_dump_for_ide l = stack_values l l.stack []
