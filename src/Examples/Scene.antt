-- ===== src/Examples/Scene.antt =====
-- A script of two lines, a stack of two frames, and sessions over them.
use lua_eclipse_ide.Base.{ℕ, Bytes, codes, List, [], ◌∷◌, Option, none, some, true, ℤ, pos}
use lua_eclipse_ide.LuaView.{LuaValue, boolean, number, string, Frame, LuaState, Activation}
use lua_eclipse_ide.Session.{Session, DebuggerType}
use lua_eclipse_ide.Source.{SourceLines}

abbrev pub name : Bytes
name = codes "a.lua"

abbrev pub no_lines : SourceLines
no_lines script = []

abbrev pub two_lines : List Bytes
two_lines = codes "i=1" ∷ codes "f()" ∷ []

abbrev pub show_frame : Frame
show_frame = record {
  source = name;
  short_src = name;
  current_line = pos 12;
  line_defined = pos 10;
  name = some (codes "show");
  name_what = some (codes "global");
  what = some (codes "Lua");
  locals =
      (codes "i", number (codes "7"))
      ∷ (codes "(*temporary)", boolean true)
      ∷ (codes "s", string (codes "hi"))
      ∷ [];
}

abbrev pub main_frame : ℤ → Frame
main_frame line = record {
  source = name;
  short_src = name;
  current_line = line;
  line_defined = pos 0;
  name = none;
  name_what = some [];
  what = some (codes "main");
  locals = [];
}

abbrev pub lua : ℤ → List (Bytes × LuaValue) → LuaState
lua line globals = record {
  frames = show_frame ∷ main_frame line ∷ [];
  lost = none;
  globals = globals;
  stack = number (codes "7") ∷ [];
  number_of_string = λ s. none;
}

abbrev pub at_line : ℕ → Activation
at_line n = record { is_line_event = true; source = name; current_line = pos n }

abbrev pub session : DebuggerType → ℕ → List (Option Bytes) → Session
session kind state inputs = record {
  kind = kind;
  state = state;
  breakpoints = λ script. [];
  scripts = λ script. codes "1  i=1" ∷ codes "2  f()" ∷ [];
  inputs = inputs;
  send_ok = λ n. true;
  sent = 0;
  trace = [];
}
