-- ===== src/Examples/Sessions.antt =====
-- Sessions of commands, and runs of the hook.
use lua_eclipse_ide.Base.{
  ◌+◌, ◌≤◌, Bytes, codes, ◌++◌, List, [], ◌∷◌, Option, some, true, ◌≡◌, refl, pos, arith,
  if◌then◌else◌, length, ◌&&◌, eq_bytes, eq_int, inl,
}
use lua_eclipse_ide.Fault.{Result, ok, fault, null_pointer}
use lua_eclipse_ide.Text.{
  show_int, show_nat, starts_with, contains, strtok, atoi, cut_at, take_bytes,
}
use lua_eclipse_ide.LuaView.{LuaState, Activation, c_str}
use lua_eclipse_ide.Command.{continue, classify}
use lua_eclipse_ide.Command.Spelling.{Spells, as_resume, classify-Spells, Spells-classify}
use lua_eclipse_ide.Breakpoints.{
  at_breakpoint, set_breakpoint_list, get_breakpoint_list, clear_breakpoint,
}
use lua_eclipse_ide.Breakpoints.Laws.{hits}
use lua_eclipse_ide.Source.{get_file_line}
use lua_eclipse_ide.Session.{
  Session, ldb, ide, Output, console, command, event, stepping, continuing, print, send, ◌>>=◌,
  at_prompt_or_ide, answer, set_state, store_breakpoints,
}
use lua_eclipse_ide.Session.Keeps.{IsValid}
use lua_eclipse_ide.Session.Execute.{
  execute, run_set_break, run_clear_break, run_step, run_continue, run_quit, next_word, atoi_of,
  set_break_at, clear_break_at,
}
use lua_eclipse_ide.Session.Parser.{
  run_line, command_parser, round, parser_loop, fill_line, receive_command,
}
use lua_eclipse_ide.Session.Hook.{
  hook_routine, run_hooks, announce_step, announce_breakpoint, then_parse,
}
use lua_eclipse_ide.Session.Hook.Runs.{run_hooks_total, run_hooks-IsValid, run_hooks_keeps}
use lua_eclipse_ide.Session.Stops.{
  number_line, break_line_lem, clear_line_lem, stops_at_new_breakpoint,
}
use lua_eclipse_ide.Session.Faults.{run_line_blank, run_line_without_argument, break_wants}
use lua_eclipse_ide.Examples.Scene.{name, lua, at_line, session}

abbrev pub l : LuaState
l = lua (pos 1) []

-- What the parser reads, prints and sends in two steps of the environment.
abbrev pub calls : List (LuaState × Activation)
calls = (l, at_line 1) ∷ (l, at_line 2) ∷ []

abbrev pub typed : Session
typed = session ldb stepping (some (codes "break 2") ∷ some (codes "co") ∷ some (codes "ste") ∷ [])

-- The run's outcome, with all that it calls.
outcome : Session → Option (Result Session)
unfolding run_hooks hook_routine announce_step announce_breakpoint command_parser parser_loop round
    receive_command fill_line run_line execute classify run_set_break run_clear_break run_step
    run_continue run_quit next_word atoi_of set_break_at clear_break_at print send answer set_state
    store_breakpoints at_prompt_or_ide ◌>>=◌ get_file_line set_breakpoint_list get_breakpoint_list
    at_breakpoint clear_breakpoint show_int starts_with contains strtok atoi cut_at take_bytes c_str
    eq_bytes eq_int
outcome s = run_hooks calls s

abbrev trace_of : Option (Result Session) → List Output
trace_of (some (ok t)) = t.trace
trace_of _ = []

-- At the prompt: the first line is shown, a breakpoint is set, and the script runs up to it.
prompt_test :
    trace_of (outcome typed)
    ≡ console (codes "1  i=1\n")
      ∷ console (codes "ldb> ")
      ∷ console (codes "setting breakpoint at a.lua line 2\n")
      ∷ console (codes "ldb> ")
      ∷ console (codes "ok")
      ∷ console (codes "\nstopping at breakpoint in a.lua line 2 \n")
      ∷ console (codes "2  f()\n")
      ∷ console (codes "ldb> ")
      ∷ console (codes "ok")
      ∷ []
unfolding outcome
prompt_test = refl

-- Over the sockets, with a command that arrives in two pieces.
abbrev received : Session
received =
    session ide stepping (some (codes "step") ∷ some (codes "\r\n") ∷ some (codes "quit\n") ∷ [])

socket_test :
    trace_of (outcome received)
    ≡ event (codes "resumed client\n")
      ∷ event (codes "resumed client\nsuspended step\n")
      ∷ command (codes "ok\n")
      ∷ event (codes "resumed step\n")
      ∷ event (codes "resumed step\nsuspended step\n")
      ∷ event (codes "resumed client\n")
      ∷ event (codes "resumed client\nsuspended step\n")
      ∷ []
unfolding outcome
socket_test = refl

abbrev pub after_run : Session → Session
after_run s = elim (run_hooks calls s) [ some (ok t) ↦ t | _ ↦ s ]

pub typed_ends : run_hooks calls typed ≡ some (ok (after_run typed))
typed_ends = unfold outcome in refl

run_hooks_total_example : (r : Result Session) × (run_hooks calls received ≡ some r)
run_hooks_total_example = run_hooks_total calls received refl

run_hooks-IsValid_example : IsValid (after_run typed)
run_hooks-IsValid_example =
    run_hooks-IsValid calls typed (after_run typed) (record { one_of = inl refl }) typed_ends

run_hooks_keeps_example :
    ((after_run typed).kind ≡ ldb)
    × ((after_run typed).scripts ≡ typed.scripts)
    × ((added : List Output) × ((after_run typed).trace ≡ [] ++ added))
    × (length (after_run typed).inputs ≤ 3)
run_hooks_keeps_example = run_hooks_keeps calls typed (after_run typed) typed_ends

classify-Spells_example : classify (codes "resumed") ≡ continue
classify-Spells_example = classify-Spells (as_resume (codes "d") refl)

Spells-classify_example : Spells (classify (codes "step")) (codes "step")
Spells-classify_example =
    Spells-classify (codes "step") (unfold classify starts_with in λ e. ground arith)

-- Sessions after "break 2", and after "clear 2" from there.
abbrev fresh : Session
fresh = session ldb stepping []

abbrev after_line : Bytes → Session → Session
after_line line s = elim (run_line l (at_line 1) line s) [ ok (b, t) ↦ t | fault e ↦ s ]

abbrev broken : Session
broken = after_line (number_line (codes "break") 2) fresh

break_runs : run_line l (at_line 1) (number_line (codes "break") 2) fresh ≡ ok (true, broken)
break_runs = unfold outcome show_nat in refl

clear_runs :
    run_line l (at_line 1) (number_line (codes "clear") 2) broken
    ≡ ok (true, after_line (number_line (codes "clear") 2) broken)
clear_runs = unfold outcome show_nat in refl

break_line_lem_example :
    (hits (pos 2) (broken.breakpoints name)
      ≡ 0 + (if eq_bytes name name then if eq_int (pos 2) (pos 2) then 1 else 0 else 0))
    × (broken.state ≡ stepping)
    × (true ≡ true)
break_line_lem_example =
    break_line_lem 2 l (at_line 1) fresh broken true name (pos 2) (omega arith) (omega arith)
      break_runs

clear_line_lem_example :
    hits (pos 2) (broken.breakpoints name)
    ≡ hits (pos 2) ((after_line (number_line (codes "clear") 2) broken).breakpoints name)
      + (if at_breakpoint (pos 2) (broken.breakpoints name)
            && (eq_bytes name name && eq_int (pos 2) (pos 2))
          then 1
          else 0)
clear_line_lem_example =
    clear_line_lem 2 l (at_line 1) broken (after_line (number_line (codes "clear") 2) broken) true
      name (pos 2) (omega arith) (omega arith) clear_runs

stops_at_new_breakpoint_example :
    hook_routine l (at_line 2) (record broken { state = continuing })
    ≡ then_parse l
        (at_line 2)
        (announce_breakpoint (at_line 2) (record broken { state = continuing }))
stops_at_new_breakpoint_example =
    stops_at_new_breakpoint 2 l l (at_line 1) (at_line 2) fresh broken
      (record broken { state = continuing }) true (omega arith) (omega arith) break_runs refl refl
      refl refl refl

run_line_blank_example : run_line l (at_line 1) (codes "  \n") fresh ≡ fault null_pointer
run_line_blank_example = run_line_blank (codes "  ") l (at_line 1) fresh (refl, (refl, tt))

run_line_without_argument_example :
    run_line l (at_line 1) (codes "break\n") fresh ≡ fault null_pointer
unfolding contains classify
run_line_without_argument_example =
    run_line_without_argument (codes "break") l (at_line 1) fresh break_wants (ground arith) refl
      refl refl
