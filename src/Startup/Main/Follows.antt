-- ===== src/Startup/Main/Follows.antt =====
-- `main` of open-ldb/LuaDebugger.cpp as a whole: the process follows the lines that it is given.
use lua_eclipse_ide.Base.{ℕ, true, false, some, List, Bytes, pos, ◌≡◌, refl, ap, ◌∙◌}
use lua_eclipse_ide.Fault.{ok}
use lua_eclipse_ide.Source.Lines.{render, number_from, Fits, add_lines}
use lua_eclipse_ide.Session.{Session, pure}
use lua_eclipse_ide.Session.Orders.{tell_ide, view, obey}
use lua_eclipse_ide.Session.Dialogue.{Dialogue, handle_all}
use lua_eclipse_ide.Session.Parser.Delivered.{Delivered}
use lua_eclipse_ide.Session.Parser.Follows.{Agrees}
use lua_eclipse_ide.Session.Hook.Refines.{activations}
use lua_eclipse_ide.Session.Hook.Works.{EachRuns, run_hooks_goes_on}
use lua_eclipse_ide.Startup.Args.{Settings, read_command_line}
use lua_eclipse_ide.Startup.Main.{LuaRun, Interpreter, Connections, calls_of, finish, main}
use lua_eclipse_ide.Startup.Main.Quiet.{started}
use lua_eclipse_ide.Startup.Main.Runs.{prepare_script}

-- Where the run of the script begins: the asked kind of debugger, and the environment told of it.
abbrev pub at_start : Settings → Session → List Bytes → Dialogue
at_start o s lines = record {
  debugger = obey (tell_ide started) (view (record s { kind = o.debugger }));
  lines = lines;
}

-- The process as a whole, for a script that is run from its file. If the arguments name a script whose
-- file holds lines that fit the readers' buffers; if the inputs are lines of commands, over the
-- sockets in at most six pieces each, short enough for the buffer; if no call of `send` fails; and if
-- wherever a debugger without details stops, started like this one, the line is in the listing and
-- the lines that it then obeys run; then `main` ends, with exit code 0, in a session that agrees with
-- what that debugger comes to at the calls of the hook: the same mode, the same breakpoints, the same
-- lines left, and the same events told, for the environment "started" the first.
pub main-EachRuns :
    (argv : List Bytes) (o : Settings) (name : Bytes) (ls : List Bytes) (lua : Interpreter)
    (c : Connections) (s : Session) (lines : List Bytes) (r : LuaRun)
    → read_command_line argv ≡ some (ok o)
    → o.script_name ≡ some name
    → o.buffer_script ≡ false
    → Fits 1 ls
    → lua.run_file name ≡ r
    → Delivered lines o.debugger s.inputs
    → ((n : ℕ) → s.send_ok n ≡ true)
    → EachRuns o.debugger
        (add_lines s.scripts name (number_from 1 ls))
        (calls_of r)
        (at_start o s lines)
    → (t : Session) × (main argv (some (render ls)) lua c s ≡ some (ok (pos 0, t)))
      × Agrees (handle_all (activations (calls_of r)) (at_start o s lines)) t
unfolding main finish pure
main-EachRuns argv o name ls lua c s lines r read named from_file fits ran inputs sends runs =
    let (u, prepared, k) = prepare_script o name named from_file ls fits lua c s in
    let (t, e, after) =
      run_hooks_goes_on o.debugger _ (calls_of r) (at_start o s lines) u
        (record {
          agrees = record { seen = k.obeyed sends; left = rw (k.kind, k.inputs) inputs };
          sends = record {
            each = λ n. ap (λ (f : ℕ → _). f n) k.send_ok ∙ sends n;
            listed = k.scripts;
          };
          same_kind = k.kind;
        })
        runs in
    (t, rw (read, prepared, ran, e, from_file) refl, after.agrees)
