-- ===== src/Session/Execute.antt =====
-- The branches of `commandParser` (open-ldb/LuaDebugger.cpp), one for each command. A branch gives
-- `keepGoing`: whether the loop asks for another command.
pub mod Steady
pub mod Gives
pub mod Listing
pub mod Works
use lua_eclipse_ide.Base.{
  ℕ, zero, suc, ◌+◌, ◌-◌, Bytes, ◌++◌, codes, List, [], ◌∷◌, Option, none, some, Bool, true, false,
  if◌then◌else◌, ℤ, pos, negsuc, length, pos_part, neg_part, ltb, ltb_int, eq_int, ◌+ℤ◌, eq_bytes,
}
use lua_eclipse_ide.Fault.{Result, ok, fault, null_pointer, undefined_int}
use lua_eclipse_ide.Text.{strtok, atoi, show_int, max_int}
use lua_eclipse_ide.Breakpoints.{
  get_breakpoint_list, set_breakpoint_list, clear_breakpoint, Breakpoints,
}
use lua_eclipse_ide.Source.{get_file_line}
use lua_eclipse_ide.LuaView.{LuaState, Activation}
use lua_eclipse_ide.Inspect.Console.{
  list_local_variables, list_local_variable, list_global_variables, list_global_variable,
  draw_stack_trace, stack_dump, print_breakpoints,
}
use lua_eclipse_ide.Inspect.Ide.{
  ide_stack_trace, get_local_var_value, get_globals, stack_dump_for_ide,
}
use lua_eclipse_ide.Command
use lua_eclipse_ide.Command.{Command}
use lua_eclipse_ide.Session.{
  Session, M, ◌>>=◌, ◌>>◌, pure, lift, raise, gets, print, send, answer, at_prompt_or_ide, command,
  event, stepping, continuing, set_state, store_breakpoints,
}

-- `strtok(NULL, " ")`: the next word, and what is left of the line.
abbrev word_of : Option (Bytes × Bytes) → Option Bytes × Bytes
word_of none = (none, [])
word_of (some (w, rest)) = (some w, rest)

unfoldable pub next_word : Bytes → Option Bytes × Bytes
next_word rest = word_of (strtok rest)

-- `atoi` of a word that may be missing: it reads through the null pointer.
abbrev or_undefined : Option ℤ → Result ℤ
or_undefined none = fault undefined_int
or_undefined (some n) = ok n

unfoldable pub atoi_of : Option Bytes → Result ℤ
atoi_of none = fault null_pointer
atoi_of (some w) = or_undefined (atoi w)

unfoldable pub run_var : LuaState → Bytes → M Bool
unfolding next_word atoi_of
run_var l rest =
    let (frame_word, more) = next_word rest in
    let (var, _) = next_word more in
    do
      frame_number ← lift (atoi_of frame_word)
      val ← lift (get_local_var_value l frame_number var)
      answer val
      pure true

unfoldable pub run_suspend : M Bool
run_suspend = do
  at_prompt_or_ide (print (codes "ok"))
      (send (command (codes "ok\n")) >> send (event (codes "suspended client\n")))
  pure true

-- The bounds of the listing: `none` is the command error.
abbrev first_line : Option Bytes → Result ℤ
first_line none = ok (pos 1)
first_line (some w) = or_undefined (atoi w)

abbrev default_last_line : ℤ → ℕ → Result (Option ℤ)
default_last_line first lines =
    if ltb_int (pos max_int) (first +ℤ pos 5)
    then fault undefined_int
    else ok (some (if ltb_int (first +ℤ pos 5) (pos lines) then first +ℤ pos 5 else pos lines))

abbrev given_last_line : ℕ → ℤ → Option ℤ
given_last_line lines last =
    if ltb_int (pos lines) last
    then some (pos lines)
    else if eq_int last (pos 0)
    then none
    else some last

abbrev map_result : Result ℤ → (ℤ → Option ℤ) → Result (Option ℤ)
map_result (ok n) f = ok (f n)
map_result (fault e) f = fault e

abbrev last_line : ℤ → ℕ → Option Bytes → Result (Option ℤ)
last_line first lines none = default_last_line first lines
last_line first lines (some w) = map_result (or_undefined (atoi w)) (given_last_line lines)

-- `for (int i = firstLine; i <= lastLine; i++)`: each line is fetched, and printed at the prompt.
pub list_line : Activation → ℤ → M (Unit {0})
list_line ar i = do
  scripts ← gets (λ s. s.scripts)
  text ← lift (get_file_line scripts ar.source i)
  at_prompt_or_ide (print (text ++ codes "\n")) (pure tt)

pub list_lines : Activation → ℤ → ℕ → M (Unit {0})
list_lines ar i zero = pure tt
list_lines ar i (suc n) = do list_line ar i; list_lines ar (i +ℤ pos 1) n

-- How many rounds the loop makes.
abbrev pub rounds : ℤ → ℤ → ℕ
rounds first last = pos_part last + neg_part first + 1 - (neg_part last + pos_part first)

abbrev list_range : Activation → ℤ → Option ℤ → M (Unit {0})
list_range ar first none = print (codes "invalid command\n")
list_range ar first (some last) = list_lines ar first (rounds first last)

unfoldable pub run_list : Activation → Bytes → M Bool
unfolding next_word list_line list_lines
run_list ar rest =
    let (first_word, more) = next_word rest in
    let (last_word, _) = next_word more in
    do
      lines ← gets (λ s. length (s.scripts ar.source))
      first ← lift (first_line first_word)
      if eq_int first (pos 0)
          then print (codes "invalid command\n")
          else lift (last_line first lines last_word) >>= list_range ar first
      pure true

abbrev syntax_error : M (Unit {0})
syntax_error = print (codes "Syntax error, invalid or no line number\n")

abbrev break_text : Activation → ℤ → Bytes
break_text ar line =
    codes "setting breakpoint at "
    ++ (ar.source ++ (codes " line " ++ (show_int line ++ codes "\n")))

unfoldable pub set_break_at : Activation → ℤ → M (Unit {0})
set_break_at ar line = do
  breakpoints ← gets (λ s. s.breakpoints)
  store_breakpoints (set_breakpoint_list breakpoints ar.source line)
  at_prompt_or_ide (print (break_text ar line)) (send (command (break_text ar line)))

unfoldable pub run_set_break : Activation → Bytes → M Bool
unfolding next_word atoi_of set_break_at
run_set_break ar rest = do
  line ← lift (atoi_of (next_word rest).0)
  if eq_int line (pos 0) then syntax_error else set_break_at ar line
  pure true

abbrev answer_cleared : Activation → ℤ → M (Unit {0})
answer_cleared ar line =
    at_prompt_or_ide
      (print (
        codes "removing breakpoint at "
        ++ (ar.source ++ (codes " line " ++ (show_int line ++ codes " \n")))))
      (send (command (codes "ok clear\n")))

abbrev pub cleared : Activation → ℤ → Option Breakpoints → M (Unit {0})
cleared ar line none = pure tt
cleared ar line (some breakpoints) = do store_breakpoints breakpoints; answer_cleared ar line

unfoldable pub clear_break_at : Activation → ℤ → M (Unit {0})
clear_break_at ar line = do
  breakpoints ← gets (λ s. s.breakpoints)
  cleared ar line (clear_breakpoint breakpoints ar.source line)

unfoldable pub run_clear_break : Activation → Bytes → M Bool
unfolding next_word atoi_of clear_break_at
run_clear_break ar rest = do
  line ← lift (atoi_of (next_word rest).0)
  if eq_int line (pos 0) then syntax_error else clear_break_at ar line
  pure true

abbrev display_text : LuaState → Option Bytes → Bytes
display_text l none = list_local_variables l (pos 0) ++ list_global_variables l
display_text l (some var) = list_local_variable l (pos 0) var ++ list_global_variable l var

unfoldable pub run_display : LuaState → Bytes → M Bool
unfolding next_word
run_display l rest = do print (display_text l (next_word rest).0); pure true

unfoldable pub run_step : M Bool
run_step = do
  set_state stepping
  at_prompt_or_ide (print (codes "ok")) (
      send (command (codes "ok\n"))
      >> send (event (codes "resumed step\n"))
      >> send (event (codes "resumed step\nsuspended step\n")))
  pure false

unfoldable pub run_continue : M Bool
run_continue = do
  set_state continuing
  at_prompt_or_ide (print (codes "ok"))
      (send (command (codes "ok resume\n")) >> send (event (codes "resumed client\n")))
  pure false

abbrev print_which : LuaState → Activation → Bytes → M (Unit {0})
print_which l ar which =
    if eq_bytes which (codes "stack")
    then print (stack_dump l)
    else if eq_bytes which (codes "trace")
    then lift (draw_stack_trace l) >>= print
    else if eq_bytes which (codes "breakpoints")
    then (do
      list ← gets (λ s. get_breakpoint_list s.breakpoints ar.source)
      print (print_breakpoints ar.source list))
    else print
        (codes "Syntax error for print command. Don't know how to print " ++ (which ++ codes "\n"))

abbrev print_word : LuaState → Activation → Option Bytes → M (Unit {0})
print_word l ar none = raise null_pointer
print_word l ar (some which) = print_which l ar which

unfoldable pub run_print : LuaState → Activation → Bytes → M Bool
unfolding next_word
run_print l ar rest = do print_word l ar (next_word rest).0; pure true

unfoldable pub run_quit : M Bool
run_quit = do set_state continuing; pure false

abbrev all_commands : Bytes
all_commands =
    codes
      "list firstline [lastline]\nbreak line\nclear line\ndisplay [varname]\nstep\ncontinue\nprint stack|trace|breakpoints\nquit\nhelp\n"

unfoldable pub run_unknown : Bytes → M Bool
run_unknown cmd = do
  at_prompt_or_ide (print (codes "ERROR, command not found: " ++ (cmd ++ codes "\n")))
      (send (command (codes "ERROR, command not found: " ++ (cmd ++ codes "\n"))))
  pure true

-- The chain of branches. `cmd` is the first word, `rest` what `strtok` has left.
unfoldable pub execute : LuaState → Activation → Command → Bytes → Bytes → M Bool
execute l ar Command.get_globals cmd rest = do val ← lift (get_globals l); answer val; pure true
execute l ar Command.data_for_ide cmd rest = do
  val ← lift (stack_dump_for_ide l)
  answer val
  pure true
execute l ar Command.var_for_ide cmd rest = run_var l rest
execute l ar Command.stack_for_ide cmd rest = do
  str ← lift (ide_stack_trace l)
  answer str
  pure true
execute l ar Command.suspend cmd rest = run_suspend
execute l ar Command.list cmd rest = run_list ar rest
execute l ar Command.set_break cmd rest = run_set_break ar rest
execute l ar Command.clear_break cmd rest = run_clear_break ar rest
execute l ar Command.display cmd rest = run_display l rest
execute l ar Command.assign cmd rest = do
  print (codes "assign command not implemented\n")
  pure true
execute l ar Command.step cmd rest = run_step
execute l ar Command.continue cmd rest = run_continue
execute l ar Command.print cmd rest = run_print l ar rest
execute l ar Command.quit cmd rest = run_quit
execute l ar Command.help cmd rest = do
  print (codes "commands can be shortened to 1 or 2 letters, e.g. l for list\n" ++ all_commands)
  pure true
execute l ar Command.unknown cmd rest = run_unknown cmd
