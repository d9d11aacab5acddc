-- ===== src/LuaView.antt =====
-- The Lua interpreter as open-ldb/LuaDebugger.cpp sees it through `lua_getstack`, `lua_getinfo`,
-- `lua_getlocal`, `lua_next`, `lua_type` and the conversions, while the hook runs: a value that the
-- debugger's functions read. Text is a list of byte values.
use lua_eclipse_ide.Base.{
  ℕ, zero, suc, Bool, true, false, Option, none, some, List, [], ◌∷◌, Bytes, codes, ℤ, pos, negsuc,
  get_elem?,
}
use lua_eclipse_ide.Text.{cut_at}

mutual
  -- A number is given by the text that `lua_number2str` makes of it ("%.14g").
  pub data LuaValue : Type 0 where
    nil : LuaValue
    boolean : Bool → LuaValue
    light_userdata : LuaValue
    number : Bytes → LuaValue
    string : Bytes → LuaValue
    table : Entries → LuaValue
    function : LuaValue
    userdata : LuaValue
    thread : LuaValue

  -- A table's keys and values, in the order of `lua_next`.
  pub data Entries : Type 0 where
    end_of_table : Entries
    entry : LuaValue → LuaValue → Entries → Entries

-- `lua_typename(L, lua_type(L, index))`.
unfoldable pub type_name : LuaValue → Bytes
type_name nil = codes "nil"
type_name (boolean b) = codes "boolean"
type_name light_userdata = codes "userdata"
type_name (number n) = codes "number"
type_name (string s) = codes "string"
type_name (table t) = codes "table"
type_name function = codes "function"
type_name userdata = codes "userdata"
type_name thread = codes "thread"

-- A string handed over by `lua_tostring` is read up to its first zero byte.
unfoldable pub c_str : Bytes → Bytes
c_str s = cut_at 0 s

-- `lua_toboolean(L, index)`; `none` is an index above the top, where nil stands.
abbrev pub to_boolean : Option LuaValue → Bool
to_boolean none = false
to_boolean (some nil) = false
to_boolean (some (boolean b)) = b
to_boolean (some v) = true

-- An activation record. A field that `lua_getinfo` may leave null is an option.
pub record Frame : Type 0 where
  pub source : Bytes
  pub short_src : Bytes
  pub current_line : ℤ
  pub line_defined : ℤ
  pub name : Option Bytes
  pub name_what : Option Bytes
  pub what : Option Bytes
  pub locals : List (Bytes × LuaValue)

-- `frames` are the levels from 0 on, `lost` what a negative level gives. `globals` are the entries
-- of the table of globals in the order of `lua_next`; a script's global variables have string keys.
-- `stack` are the values at the indices from 1 to `lua_gettop(L)` when the hook is called.
-- `number_of_string` is the number that a string spells, as text, if it spells one.
pub record LuaState : Type 0 where
  pub frames : List Frame
  pub lost : Option Frame
  pub globals : List (Bytes × LuaValue)
  pub stack : List LuaValue
  pub number_of_string : Bytes → Option Bytes

-- `lua_getstack(L, level, &ar)`.
unfoldable pub get_stack : LuaState → ℤ → Option Frame
get_stack l (pos level) = get_elem? l.frames level
get_stack l (negsuc n) = l.lost

-- The value at an index from 1 on, with `pushed` on top of what was there.
abbrev pub at_index : List LuaValue → ℕ → Option LuaValue
at_index values zero = none
at_index values (suc i) = get_elem? values i

abbrev or_zero : Option Bytes → Bytes
or_zero none = codes "0"
or_zero (some t) = t

abbrev number_text : LuaState → Option LuaValue → Bytes
number_text l (some (number t)) = t
number_text l (some (string s)) = or_zero (l.number_of_string s)
number_text l _ = codes "0"

abbrev top_of : List LuaValue → Option LuaValue
top_of [] = none
top_of (v ∷ []) = some v
top_of (v ∷ w ∷ values) = top_of (w ∷ values)

-- `lua_number2str(value, lua_tonumber(L, -1))`.
unfoldable pub top_number : LuaState → Bytes
top_number l = number_text l (top_of l.stack)

-- What the hook is called with: `ar`, once `lua_getinfo(L, "Sl", ar)` has filled it in.
pub record Activation : Type 0 where
  pub is_line_event : Bool
  pub source : Bytes
  pub current_line : ℤ
