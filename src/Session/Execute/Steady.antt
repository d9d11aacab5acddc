-- ===== src/Session/Execute/Steady.antt =====
-- Every command is steady (`Keeps`) and obeys what its line orders.
use lua_eclipse_ide.Base.{
  codes, ◌≡◌, refl, [], ◌∷◌, eq_int, if◌then◌else◌, true, false, Bool, ℕ, zero, suc, Bytes, Option,
  none, some, ℤ, pos, ◌+ℤ◌,
}
use lua_eclipse_ide.LuaView.{LuaState, Activation}
use lua_eclipse_ide.Breakpoints.{Breakpoints, set_breakpoint_list, clear_breakpoint}
use lua_eclipse_ide.Session.{
  Session, M, lift, ◌>>=◌, gets, pure, store_breakpoints, at_prompt_or_ide, print, send, command,
}
use lua_eclipse_ide.Session.Orders.{
  Order, set_at, clear_at, to_step, to_continue, tell_ide, view-set_breakpoint_list,
  view-clear_breakpoint, view-clear_breakpoint-none,
}
use lua_eclipse_ide.Session.Dialogue.{number_orders, argument_orders, command_orders}
use lua_eclipse_ide.Text.{strtok, atoi}
use lua_eclipse_ide.Command.{Command}
use lua_eclipse_ide.Session.Keeps.{
  Steady-stored, SteadyResult, SteadyResult-trans, Keeps-at_prompt_or_ide, Keeps-pure, Keeps-print,
  Keeps-send-command, Keeps-send-event, Keeps-tell_ide, Keeps-then, Keeps, keeps_rules,
  Keeps-answer, Keeps-bind, Keeps-bind_first, Keeps-set_state-stepping, Keeps-set_state-continuing,
}
use lua_eclipse_ide.Session.Execute.{
  or_undefined, word_of, atoi_of, syntax_error, run_var, run_suspend, list_line, list_lines,
  list_range, run_list, break_text, set_break_at, run_set_break, answer_cleared, cleared,
  clear_break_at, run_clear_break, run_display, run_step, run_continue, print_which, print_word,
  run_print, run_quit, run_unknown, execute,
}

ruleset actions = (keeps_rules, Keeps-answer)

run_var-Keeps : (l : LuaState) (rest : Bytes) → Keeps [] (run_var l rest)
unfolding run_var
run_var-Keeps l rest = search actions

-- An answer on the command socket, and then events.
run_suspend-Keeps : Keeps (tell_ide (codes "suspended client\n" ∷ []) ∷ []) run_suspend
unfolding run_suspend
run_suspend-Keeps =
    Keeps-bind_first _ _
      (Keeps-tell_ide _ _ _ (Keeps-print _)
        (Keeps-bind _ _ (Keeps-send-command _) (λ _. Keeps-send-event _)))
      (λ _. Keeps-pure true)

list_line-Keeps : (ar : Activation) (i : ℤ) → Keeps [] (list_line ar i)
unfolding list_line
list_line-Keeps ar i = search actions

list_lines-Keeps : (n : ℕ) (ar : Activation) (i : ℤ) → Keeps [] (list_lines ar i n)
unfolding list_lines
list_lines-Keeps zero ar i = search actions
list_lines-Keeps (suc n) ar i =
    Keeps-bind _ _ (list_line-Keeps ar i) (λ _. list_lines-Keeps n ar (i +ℤ pos 1))

list_range-Keeps : (ar : Activation) (i : ℤ) (last : Option ℤ) → Keeps [] (list_range ar i last)
list_range-Keeps ar i none = search actions
list_range-Keeps ar i (some last) = list_lines-Keeps _ ar i

run_list-Keeps : (ar : Activation) (rest : Bytes) → Keeps [] (run_list ar rest)
unfolding run_list
run_list-Keeps ar rest = search (actions, list_range-Keeps) depth 9

set_break_at-Keeps :
    (ar : Activation) (line : ℤ) → Keeps (set_at ar.source line ∷ []) (set_break_at ar line)
unfolding set_break_at gets store_breakpoints ◌>>=◌
set_break_at-Keeps ar line = record {
  at = λ s.
      SteadyResult-trans (set_at ar.source line ∷ []) []
        (at_prompt_or_ide (print (break_text ar line)) (send (command (break_text ar line)))
          (record s { breakpoints = set_breakpoint_list s.breakpoints ar.source line }))
        (Steady-stored _ s _ (view-set_breakpoint_list s ar.source line))
        ((Keeps-at_prompt_or_ide _ _ (Keeps-print _) (Keeps-send-command _)).at _);
}

cleared-SteadyResult :
    (ar : Activation) (line : ℤ) (s : Session) (found : Option Breakpoints)
    → clear_breakpoint s.breakpoints ar.source line ≡ found
    → SteadyResult (clear_at ar.source line ∷ []) s (cleared ar line found s)
unfolding store_breakpoints pure ◌>>=◌
cleared-SteadyResult ar line s none h =
    Steady-stored _ s s.breakpoints (view-clear_breakpoint-none s ar.source line h)
cleared-SteadyResult ar line s (some all) h =
    SteadyResult-trans (clear_at ar.source line ∷ []) []
      (answer_cleared ar line (record s { breakpoints = all }))
      (Steady-stored _ s all (view-clear_breakpoint s ar.source line h))
      ((Keeps-at_prompt_or_ide _ _ (Keeps-print _) (Keeps-send-command _)).at _)

clear_break_at-Keeps :
    (ar : Activation) (line : ℤ) → Keeps (clear_at ar.source line ∷ []) (clear_break_at ar line)
unfolding clear_break_at gets ◌>>=◌
clear_break_at-Keeps ar line = record { at = λ s. cleared-SteadyResult ar line s _ refl }

-- `break` and `clear` alike: the number is read, and at zero there is a syntax error.
unless_zero :
    (zero_line : Bool) (o : Order) (m : M (Unit {0}))
    → Keeps (o ∷ []) m
    → Keeps
        (if zero_line then [] else o ∷ [])
        ((if zero_line then syntax_error else m) >>= λ _. pure true)
unless_zero true o m k = search actions
unless_zero false o m k = Keeps-bind_first m _ k (λ _. Keeps-pure true)

module _ (order : ℤ → Order) (act : ℤ → M (Unit {0}))
    (k : (line : ℤ) → Keeps (order line ∷ []) (act line)) where
  abbrev at_number : ℤ → M Bool
  at_number line = (if eq_int line (pos 0) then syntax_error else act line) >>= λ _. pure true

  number-Keeps :
      (n : Option ℤ) → Keeps (number_orders order n) (lift (or_undefined n) >>= at_number)
  unfolding ◌>>=◌ lift
  number-Keeps none = record { at = λ s. tt }
  number-Keeps (some line) = record { at = (unless_zero (eq_int line (pos 0)) _ _ (k line)).at }

  argument-Keeps :
      (words : Option (Bytes × Bytes))
      → Keeps (argument_orders order words) (lift (atoi_of (word_of words).0) >>= at_number)
  unfolding ◌>>=◌ lift atoi_of
  argument-Keeps none = record { at = λ s. tt }
  argument-Keeps (some (w, more)) = number-Keeps (atoi w)

run_set_break-Keeps :
    (ar : Activation) (rest : Bytes)
    → Keeps (argument_orders (set_at ar.source) (strtok rest)) (run_set_break ar rest)
unfolding run_set_break
run_set_break-Keeps ar rest =
    argument-Keeps (set_at ar.source) (set_break_at ar) (set_break_at-Keeps ar) (strtok rest)

run_clear_break-Keeps :
    (ar : Activation) (rest : Bytes)
    → Keeps (argument_orders (clear_at ar.source) (strtok rest)) (run_clear_break ar rest)
unfolding run_clear_break
run_clear_break-Keeps ar rest =
    argument-Keeps (clear_at ar.source) (clear_break_at ar) (clear_break_at-Keeps ar) (strtok rest)

run_display-Keeps : (l : LuaState) (rest : Bytes) → Keeps [] (run_display l rest)
unfolding run_display
run_display-Keeps l rest = search actions

run_step-Keeps :
    Keeps
      (to_step
        ∷ tell_ide (codes "resumed step\n" ∷ codes "resumed step\nsuspended step\n" ∷ [])
        ∷ [])
      run_step
unfolding run_step
run_step-Keeps = Keeps-then _ _ Keeps-set_state-stepping (λ _.
    Keeps-bind_first _ _
      (Keeps-tell_ide _ _ _ (Keeps-print _) (
        Keeps-then _ _ (Keeps-bind _ _ (Keeps-send-command _) (λ _. Keeps-send-event _))
          (λ _. Keeps-send-event _)))
      (λ _. Keeps-pure false))

run_continue-Keeps :
    Keeps (to_continue ∷ tell_ide (codes "resumed client\n" ∷ []) ∷ []) run_continue
unfolding run_continue
run_continue-Keeps = Keeps-then _ _ Keeps-set_state-continuing (λ _.
    Keeps-bind_first _ _
      (Keeps-tell_ide _ _ _ (Keeps-print _)
        (Keeps-bind _ _ (Keeps-send-command _) (λ _. Keeps-send-event _)))
      (λ _. Keeps-pure false))

print_which-Keeps :
    (l : LuaState) (ar : Activation) (which : Bytes) → Keeps [] (print_which l ar which)
print_which-Keeps l ar which = search actions depth 9

print_word-Keeps :
    (l : LuaState) (ar : Activation) (which : Option Bytes) → Keeps [] (print_word l ar which)
print_word-Keeps l ar none = search actions
print_word-Keeps l ar (some which) = print_which-Keeps l ar which

run_print-Keeps : (l : LuaState) (ar : Activation) (rest : Bytes) → Keeps [] (run_print l ar rest)
unfolding run_print
run_print-Keeps l ar rest = search (actions, print_word-Keeps)

run_quit-Keeps : Keeps (to_continue ∷ []) run_quit
unfolding run_quit
run_quit-Keeps = Keeps-bind_first _ _ Keeps-set_state-continuing (λ _. Keeps-pure false)

run_unknown-Keeps : (cmd : Bytes) → Keeps [] (run_unknown cmd)
unfolding run_unknown
run_unknown-Keeps cmd = search actions

pub execute-Keeps :
    (l : LuaState) (ar : Activation) (c : Command) (cmd rest : Bytes)
    → Keeps (command_orders ar.source c rest) (execute l ar c cmd rest)
unfolding execute
execute-Keeps l ar Command.get_globals cmd rest = search actions
execute-Keeps l ar Command.data_for_ide cmd rest = search actions
execute-Keeps l ar Command.var_for_ide cmd rest = run_var-Keeps l rest
execute-Keeps l ar Command.stack_for_ide cmd rest = search actions
execute-Keeps l ar Command.suspend cmd rest = run_suspend-Keeps
execute-Keeps l ar Command.list cmd rest = run_list-Keeps ar rest
execute-Keeps l ar Command.set_break cmd rest = run_set_break-Keeps ar rest
execute-Keeps l ar Command.clear_break cmd rest = run_clear_break-Keeps ar rest
execute-Keeps l ar Command.display cmd rest = run_display-Keeps l rest
execute-Keeps l ar Command.assign cmd rest = search actions
execute-Keeps l ar Command.step cmd rest = run_step-Keeps
execute-Keeps l ar Command.continue cmd rest = run_continue-Keeps
execute-Keeps l ar Command.print cmd rest = run_print-Keeps l ar rest
execute-Keeps l ar Command.quit cmd rest = run_quit-Keeps
execute-Keeps l ar Command.help cmd rest = search actions
execute-Keeps l ar Command.unknown cmd rest = run_unknown-Keeps cmd
