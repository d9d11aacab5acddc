-- ===== src/Session/Execute/Works.antt =====
-- The commands of `commandParser` (open-ldb/LuaDebugger.cpp) that do not end the process.
use lua_eclipse_ide.Base.{Bytes, Option, none, some, true, ℤ, ◌≡◌, refl}
use lua_eclipse_ide.Fault.{Result, ok}
use lua_eclipse_ide.Text.{strtok, atoi}
use lua_eclipse_ide.Breakpoints.{Breakpoints}
use lua_eclipse_ide.Source.{SourceLines}
use lua_eclipse_ide.LuaView.{LuaState, Activation}
use lua_eclipse_ide.Inspect.Console.{draw_stack_trace}
use lua_eclipse_ide.Inspect.Ide.{
  ide_stack_trace, get_local_var_value, get_globals, stack_dump_for_ide,
}
use lua_eclipse_ide.Command.{Command}
use lua_eclipse_ide.Session.Works.{
  Works, works_rules, Works-answer, Works-bind, Works-pure, Works-lift_then,
}
use lua_eclipse_ide.Session.Execute.Listing.{ListArguments, run_list-Works}
use lua_eclipse_ide.Session.Execute.{
  next_word, atoi_of, run_var, run_suspend, set_break_at, run_set_break, cleared, clear_break_at,
  run_clear_break, run_display, run_step, run_continue, print_which, run_print, run_quit,
  run_unknown, execute,
}

-- The next word is there, and a number that fits an `int`.
pub record HasNumber (rest : Bytes) : Type 0 where
  pub word : Bytes
  pub more : Bytes
  pub number : ℤ
  pub is_word : strtok rest ≡ some (word, more)
  pub is_number : atoi word ≡ some number

-- The answer fits the buffers that it is made in.
abbrev pub Fits : {A : Type 0} → Result A → Type 0
Fits {A} r = (a : A) × (r ≡ ok a)

-- What a command needs, in this state of the interpreter.
abbrev pub Runs : LuaState → Command → Bytes → Type 0
Runs l Command.get_globals rest = Fits (get_globals l)
Runs l Command.data_for_ide rest = Fits (stack_dump_for_ide l)
Runs l Command.stack_for_ide rest = Fits (ide_stack_trace l)
Runs l Command.var_for_ide rest =
    (n : HasNumber rest) × Fits (get_local_var_value l n.number (next_word (next_word rest).1).0)
Runs l Command.set_break rest = HasNumber rest
Runs l Command.clear_break rest = HasNumber rest
Runs l Command.print rest =
    ((words : Bytes × Bytes) × (strtok rest ≡ some words)) × Fits (draw_stack_trace l)
Runs l Command.list rest = ListArguments rest
Runs l other rest = Unit {0}

ruleset actions = (works_rules, Works-answer)

number-HasNumber : (rest : Bytes) (n : HasNumber rest) → atoi_of (next_word rest).0 ≡ ok n.number
unfolding atoi_of next_word
number-HasNumber rest n = rw n.is_word (rw n.is_number refl)

module _ {scripts : SourceLines} where
  run_var-Works :
      (l : LuaState) (rest : Bytes)
      → Runs l Command.var_for_ide rest
      → Works scripts (run_var l rest)
  unfolding run_var
  run_var-Works l rest (n, (val, h)) =
      Works-lift_then n.number _ _ (number-HasNumber rest n)
        (Works-lift_then val _ _ h (search actions))

  set_break_at-Works : (ar : Activation) (line : ℤ) → Works scripts (set_break_at ar line)
  unfolding set_break_at
  set_break_at-Works ar line = search actions

  cleared-Works :
      (ar : Activation) (line : ℤ) (left : Option Breakpoints)
      → Works scripts (cleared ar line left)
  cleared-Works ar line none = search actions
  cleared-Works ar line (some all) = search actions

  clear_break_at-Works : (ar : Activation) (line : ℤ) → Works scripts (clear_break_at ar line)
  unfolding clear_break_at
  clear_break_at-Works ar line = search (actions, cleared-Works)

  run_set_break-Works :
      (ar : Activation) (rest : Bytes) → HasNumber rest → Works scripts (run_set_break ar rest)
  unfolding run_set_break
  run_set_break-Works ar rest n =
      Works-lift_then n.number _ _ (number-HasNumber rest n) (search (actions, set_break_at-Works))

  run_clear_break-Works :
      (ar : Activation) (rest : Bytes) → HasNumber rest → Works scripts (run_clear_break ar rest)
  unfolding run_clear_break
  run_clear_break-Works ar rest n =
      Works-lift_then n.number _ _ (number-HasNumber rest n)
        (search (actions, clear_break_at-Works))

  print_which-Works :
      (l : LuaState) (ar : Activation) (which text : Bytes)
      → draw_stack_trace l ≡ ok text
      → Works scripts (print_which l ar which)
  print_which-Works l ar which text h = search actions depth 9

  run_print-Works :
      (l : LuaState) (ar : Activation) (rest : Bytes)
      → Runs l Command.print rest
      → Works scripts (run_print l ar rest)
  unfolding run_print next_word
  run_print-Works l ar rest ((words, e), (text, h)) =
      rw e (Works-bind _ _ (print_which-Works l ar words.0 text h) (λ _. Works-pure true))

  pub execute-Works :
      (l : LuaState) (ar : Activation) (c : Command) (cmd rest : Bytes)
      → Runs l c rest
      → Works scripts (execute l ar c cmd rest)
  unfolding execute run_suspend run_display run_step run_continue run_quit run_unknown
  execute-Works l ar Command.get_globals cmd rest (val, h) = search actions
  execute-Works l ar Command.data_for_ide cmd rest (val, h) = search actions
  execute-Works l ar Command.var_for_ide cmd rest h = run_var-Works l rest h
  execute-Works l ar Command.stack_for_ide cmd rest (val, h) = search actions
  execute-Works l ar Command.suspend cmd rest h = search actions
  execute-Works l ar Command.list cmd rest h = run_list-Works ar rest h
  execute-Works l ar Command.set_break cmd rest h = run_set_break-Works ar rest h
  execute-Works l ar Command.clear_break cmd rest h = run_clear_break-Works ar rest h
  execute-Works l ar Command.display cmd rest h = search actions
  execute-Works l ar Command.assign cmd rest h = search actions
  execute-Works l ar Command.step cmd rest h = search actions depth 9
  execute-Works l ar Command.continue cmd rest h = search actions depth 8
  execute-Works l ar Command.print cmd rest h = run_print-Works l ar rest h
  execute-Works l ar Command.quit cmd rest h = search actions
  execute-Works l ar Command.help cmd rest h = search actions
  execute-Works l ar Command.unknown cmd rest h = search actions
