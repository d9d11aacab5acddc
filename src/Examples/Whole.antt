-- ===== src/Examples/Whole.antt =====
-- The whole program, started for the environment (open-ldb/LuaDebugger.cpp).
use lua_eclipse_ide.Base.{
  true, false, some, List, [], ◌∷◌, Bytes, ◌≡◌, refl, arith, codes, pos, eq_int, eq_bytes, map,
}
use lua_eclipse_ide.Text.{contains, atoi, show_nat, show_int, strtok, cut_at, starts_with}
use lua_eclipse_ide.Command.{classify}
use lua_eclipse_ide.Source.{get_file_line, set_line_source_list}
use lua_eclipse_ide.Source.Lines.{render, number_from, add_lines}
use lua_eclipse_ide.Session.{Session, ide}
use lua_eclipse_ide.Session.Dialogue.{handle_all}
use lua_eclipse_ide.Session.Parser.Delivered.{AllWhole-Delivered}
use lua_eclipse_ide.Session.Parser.Follows.{Agrees}
use lua_eclipse_ide.Session.Hook.Refines.{activations}
use lua_eclipse_ide.Session.Hook.Works.{EachRuns}
use lua_eclipse_ide.Session.Execute.{next_word}
use lua_eclipse_ide.Session.Execute.Works.{HasNumber}
use lua_eclipse_ide.Fault.{ok}
use lua_eclipse_ide.Startup.Args.{Settings, parse_args, store_setting, read_command_line}
use lua_eclipse_ide.Startup.Main.{LuaRun, Interpreter, main}
use lua_eclipse_ide.Startup.Main.Follows.{at_start, main-EachRuns}
use lua_eclipse_ide.Examples.Scene.{at_line}
use lua_eclipse_ide.Examples.Sessions.{l}
use lua_eclipse_ide.Examples.Mains.{lines, connections, quiet_run, fresh}

abbrev argv : List Bytes
argv =
    codes "ldb"
    ∷ codes "-n"
    ∷ codes "a.lua"
    ∷ codes "-b"
    ∷ codes "false"
    ∷ codes "-t"
    ∷ codes "ide"
    ∷ codes "-c"
    ∷ codes "1"
    ∷ codes "-e"
    ∷ codes "2"
    ∷ []

abbrev settings : Settings
settings = record {
  script_name = some (codes "a.lua");
  buffer_script = false;
  debugger = ide;
  command_port = pos 1;
  event_port = pos 2;
}

-- The script runs its two lines, and fails.
abbrev script_run : LuaRun
script_run = record quiet_run {
  hooks = (l, at_line 1) ∷ (l, at_line 2) ∷ [];
  call_status = pos 2;
  message = codes "boom";
}

abbrev lua : Interpreter
lua = record { run_file = λ name. script_run; run_buffer = λ text name. quiet_run }

abbrev commands : List Bytes
commands =
    codes "list 2\n"
    ∷ codes "break 2\n"
    ∷ codes "resume\n"
    ∷ codes "clear 2\n"
    ∷ codes "step\n"
    ∷ []

abbrev waiting : Session
waiting = record fresh { inputs = map some commands }

-- What the environment is told.
told_test :
    (handle_all (activations script_run.hooks) (at_start settings waiting commands)).debugger.told
    ≡ codes "started\n"
      ∷ codes "resumed client\n"
      ∷ codes "resumed client\nsuspended step\n"
      ∷ codes "resumed client\n"
      ∷ codes "resumed client\n"
      ∷ codes "resumed client\nsuspended breakpoint 2\n"
      ∷ codes "resumed client\n"
      ∷ codes "resumed client\nsuspended step\n"
      ∷ codes "resumed step\n"
      ∷ codes "resumed step\nsuspended step\n"
      ∷ []
unfolding strtok cut_at atoi classify starts_with show_int show_nat eq_int eq_bytes
told_test = refl

two : HasNumber (codes "2")
unfolding strtok atoi
two = record { word = codes "2"; more = []; number = pos 2; is_word = refl; is_number = refl }

commands_run :
    EachRuns ide
      (add_lines fresh.scripts (codes "a.lua") (number_from 1 lines))
      script_run.hooks
      (at_start settings waiting commands)
unfolding strtok cut_at atoi classify starts_with show_int show_nat eq_int eq_bytes get_file_line
    set_line_source_list next_word
commands_run = (
  λ stops. ((_, refl), ((2, refl, omega arith, tt), λ more. (two, λ more. (tt, λ resumed. cc)))),
  (λ stops. ((_, refl), (two, λ more. (tt, λ resumed. cc))), tt),
)

main-EachRuns_example :
    (t : Session) × (main argv (some (render lines)) lua connections waiting ≡ some (ok (pos 0, t)))
    × Agrees (handle_all (activations script_run.hooks) (at_start settings waiting commands)) t
unfolding contains show_nat eq_int
main-EachRuns_example =
    main-EachRuns argv settings (codes "a.lua") lines lua connections waiting commands script_run
      (unfold read_command_line parse_args store_setting eq_bytes atoi in refl) refl refl
      (refl, omega arith, (refl, omega arith, tt)) refl
      (AllWhole-Delivered commands (
        (omega arith, refl, refl),
        (
          (omega arith, refl, refl),
          ((omega arith, refl, refl), ((omega arith, refl, refl), ((omega arith, refl, refl), tt))),
        ),
      ))
      (λ n. refl) commands_run

-- The same run of a script in a buffer.
abbrev in_buffer : Settings
in_buffer = record settings { buffer_script = true }

abbrev for_ide : Session
for_ide = record waiting { kind = ide }
