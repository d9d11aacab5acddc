-- ===== src/Examples/Mains.antt =====
-- The whole program at a small script (open-ldb/LuaDebugger.cpp).
use lua_eclipse_ide.Base.{
  true, false, some, none, List, [], ◌∷◌, Bytes, ◌≡◌, refl, arith, codes, pos, eq_int, eq_bytes,
}
use lua_eclipse_ide.Fault.{ok, fault, dangling_pointer}
use lua_eclipse_ide.Text.{contains, atoi, show_nat}
use lua_eclipse_ide.Session.{Session, ldb, stepping, pure}
use lua_eclipse_ide.Session.Hook.{run_hooks}
use lua_eclipse_ide.Source.Lines.{render, number_from, add_lines}
use lua_eclipse_ide.Net.Server.{returns}
use lua_eclipse_ide.Startup.Args.{Settings, parse_args, store_setting, read_command_line}
use lua_eclipse_ide.Startup.Main.{LuaRun, Interpreter, Connections, calls_of, after_run, main}
use lua_eclipse_ide.Startup.Main.Runs.{main-run_hooks, main_buffer_undefined}
use lua_eclipse_ide.Examples.Scene.{at_line}
use lua_eclipse_ide.Examples.Sessions.{l}

abbrev argv : List Bytes
argv =
    codes "ldb"
    ∷ codes "-n"
    ∷ codes "a.lua"
    ∷ codes "-b"
    ∷ codes "false"
    ∷ codes "-t"
    ∷ codes "ldb"
    ∷ codes "-c"
    ∷ codes "1"
    ∷ codes "-e"
    ∷ codes "2"
    ∷ []

abbrev settings : Settings
settings = record {
  script_name = some (codes "a.lua");
  buffer_script = false;
  debugger = ldb;
  command_port = pos 1;
  event_port = pos 2;
}

abbrev pub lines : List Bytes
lines = codes "x = 1" ∷ codes "print(x)" ∷ []

abbrev pub quiet_run : LuaRun
quiet_run = record {
  load_status = pos 0;
  hooks = [];
  call_status = pos 0;
  message = [];
  at_error = record {
    frames = [];
    lost = none;
    globals = [];
    stack = [];
    number_of_string = λ s. none;
  };
}

-- The hook is called at both lines, and the script then fails.
abbrev scripted_run : LuaRun
scripted_run = record quiet_run {
  hooks = (l, at_line 1) ∷ (l, at_line 2) ∷ [];
  call_status = pos 2;
  message = codes "boom";
}

abbrev lua : Interpreter
lua = record { run_file = λ name. scripted_run; run_buffer = λ text name. quiet_run }

abbrev pub connections : Connections
connections = record { commands = returns tt; events = returns tt }

abbrev pub fresh : Session
fresh = record {
  kind = ldb;
  state = stepping;
  breakpoints = λ name. [];
  scripts = λ name. [];
  inputs = [];
  send_ok = λ n. true;
  sent = 0;
  trace = [];
}

abbrev typing : Session
typing = record fresh { inputs = some (codes "cont") ∷ [] }

argv_read : read_command_line argv ≡ some (ok settings)
unfolding read_command_line parse_args store_setting eq_bytes atoi
argv_read = refl

main-run_hooks_example :
    (t : Session) × (main argv (some (render lines)) lua connections typing
      ≡ after_run (pure (pos 0)) (run_hooks (calls_of scripted_run) t))
    × (t.kind ≡ ldb)
    × (t.scripts ≡ add_lines (λ name. []) (codes "a.lua") (number_from 1 lines))
    × (t.inputs ≡ some (codes "cont") ∷ [])
unfolding contains show_nat eq_int
main-run_hooks_example =
    main-run_hooks argv settings (codes "a.lua") lines lua connections typing argv_read refl refl
      (refl, omega arith, (refl, omega arith, tt))

abbrev argv_buffer : List Bytes
argv_buffer =
    codes "ldb"
    ∷ codes "-n"
    ∷ codes "a.lua"
    ∷ codes "-b"
    ∷ codes "true"
    ∷ codes "-t"
    ∷ codes "ldb"
    ∷ codes "-c"
    ∷ codes "1"
    ∷ codes "-e"
    ∷ codes "2"
    ∷ []

main_buffer_undefined_example :
    main argv_buffer (some (render lines)) lua connections fresh ≡ some (fault dangling_pointer)
unfolding read_command_line parse_args store_setting eq_bytes atoi
main_buffer_undefined_example =
    main_buffer_undefined argv_buffer (record settings { buffer_script = true }) (codes "a.lua")
      (some (render lines)) lua connections fresh refl refl refl
