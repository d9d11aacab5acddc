-- ===== src/Session/Dialogue.antt =====
-- What `commandParser` and `HookRoutine` of open-ldb/LuaDebugger.cpp do with lines of commands, for a
-- debugger that has nothing but a mode, the numbers of breakpoints, and the lines still to come.
use lua_eclipse_ide.Base.{
  ◌==◌, Bytes, codes, ◌++◌, List, [], ◌∷◌, Option, none, some, Bool, true, false, not,
  if◌then◌else◌, ℤ, pos, eq_int,
}
use lua_eclipse_ide.Text.{strtok, atoi, cut_at, show_int}
use lua_eclipse_ide.Command.{Command, classify}
use lua_eclipse_ide.LuaView.{Activation}
use lua_eclipse_ide.Session.{stepping, continuing}
use lua_eclipse_ide.Session.Orders.{
  Debugger, Order, set_at, clear_at, to_step, to_continue, tell_ide, obey_all,
}

-- A number orders something unless it is zero.
abbrev pub number_orders : (ℤ → Order) → Option ℤ → List Order
number_orders order none = []
number_orders order (some n) = if eq_int n (pos 0) then [] else order n ∷ []

abbrev pub argument_orders : (ℤ → Order) → Option (Bytes × Bytes) → List Order
argument_orders order none = []
argument_orders order (some (w, more)) = number_orders order (atoi w)

-- A command orders something if it is one of these; `rest` is the line behind its first word.
abbrev pub command_orders : Bytes → Command → Bytes → List Order
command_orders script Command.set_break rest = argument_orders (set_at script) (strtok rest)
command_orders script Command.clear_break rest = argument_orders (clear_at script) (strtok rest)
command_orders script Command.step rest =
    to_step ∷ tell_ide (codes "resumed step\n" ∷ codes "resumed step\nsuspended step\n" ∷ []) ∷ []
command_orders script Command.continue rest =
    to_continue ∷ tell_ide (codes "resumed client\n" ∷ []) ∷ []
command_orders script Command.quit rest = to_continue ∷ []
command_orders script Command.suspend rest = tell_ide (codes "suspended client\n" ∷ []) ∷ []
command_orders script other rest = []

-- The commands that let the script go on.
abbrev pub resumes : Command → Bool
resumes Command.step = true
resumes Command.continue = true
resumes Command.quit = true
resumes other = false

-- The words of a line end at a newline or a carriage return.
abbrev pub line_words : Bytes → Option (Bytes × Bytes)
line_words line = strtok (cut_at 13 (cut_at b'\n' line))

abbrev pub words_orders : Bytes → Option (Bytes × Bytes) → List Order
words_orders script none = []
words_orders script (some (cmd, rest)) = command_orders script (classify cmd) rest

abbrev pub words_resume : Option (Bytes × Bytes) → Bool
words_resume none = false
words_resume (some (cmd, rest)) = resumes (classify cmd)

abbrev pub line_orders : Bytes → Bytes → List Order
line_orders script line = words_orders script (line_words line)

abbrev pub line_resumes : Bytes → Bool
line_resumes line = words_resume (line_words line)

pub record Dialogue : Type 0 where
  pub debugger : Debugger
  pub lines : List Bytes

-- The lines are obeyed up to the first that lets the script go on.
abbrev pub follow : Bytes → Debugger → List Bytes → Dialogue
follow script d [] = record { debugger = d; lines = [] }
follow script d (line ∷ lines) =
    let e = obey_all (line_orders script line) d in
    let later = follow script e lines in
    if line_resumes line then record { debugger = e; lines = lines } else later

-- At a new line the debugger stops if it steps, or if it continues and a breakpoint stands there.
abbrev pub stops : Activation → Debugger → Bool
stops ar d =
    if not ar.is_line_event
    then false
    else if d.mode == continuing
    then not (d.count ar.source ar.current_line == 0)
    else d.mode == stepping

abbrev pub arrival : Order
arrival = tell_ide (codes "resumed client\n" ∷ codes "resumed client\nsuspended step\n" ∷ [])

-- What the environment is told when the debugger stops: first that it is at a breakpoint if it
-- continues, then, whatever the reason, what a step tells.
abbrev pub at_break : Activation → Order
at_break ar = tell_ide (
    codes "resumed client\n"
    ∷ (codes "resumed client\nsuspended breakpoint " ++ (show_int ar.current_line ++ codes "\n"))
    ∷ [])

abbrev pub stop_orders : Activation → Debugger → List Order
stop_orders ar d = (if d.mode == continuing then at_break ar ∷ [] else []) ++ arrival ∷ []

abbrev pub handle : Activation → Dialogue → Dialogue
handle ar a =
    if stops ar a.debugger
    then follow ar.source (obey_all (stop_orders ar a.debugger) a.debugger) a.lines
    else a

abbrev pub handle_all : List Activation → Dialogue → Dialogue
handle_all [] a = a
handle_all (ar ∷ calls) a = handle_all calls (handle ar a)
