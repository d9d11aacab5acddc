-- ===== src/Examples/Dialogues.antt =====
-- Sessions that follow their lines.
use lua_eclipse_ide.Base.{
  List, Option, Bytes, eq_bytes, codes, [], ◌∷◌, some, ◌≡◌, refl, pos, arith,
}
use lua_eclipse_ide.Fault.{ok, strcat, sprintf}
use lua_eclipse_ide.Text.{starts_with, contains, strtok, atoi, cut_at, show_int}
use lua_eclipse_ide.LuaView.{get_stack}
use lua_eclipse_ide.Command.{classify}
use lua_eclipse_ide.Source.{get_file_line}
use lua_eclipse_ide.Inspect.Ide.{ide_stack_trace}
use lua_eclipse_ide.Session.{Session, ide, stepping}
use lua_eclipse_ide.Session.Orders.{view}
use lua_eclipse_ide.Session.Dialogue.{Dialogue, handle_all}
use lua_eclipse_ide.Session.Parser.Delivered.{InPieces, in_one_piece}
use lua_eclipse_ide.Session.Parser.Follows.{Agrees}
use lua_eclipse_ide.Session.Hook.{run_hooks}
use lua_eclipse_ide.Session.Hook.Refines.{activations}
use lua_eclipse_ide.Session.Hook.Follows.{run_hooks-Agrees}
use lua_eclipse_ide.Session.Hook.Works.{EachRuns, run_hooks-EachRuns}
use lua_eclipse_ide.Examples.Scene.{session}
use lua_eclipse_ide.Examples.Sessions.{l, calls, typed, after_run, typed_ends}

abbrev at_prompt : Dialogue
at_prompt = record {
  debugger = view typed;
  lines = codes "break 2" ∷ codes "co" ∷ codes "ste" ∷ [];
}

at_prompt-Agrees : Agrees at_prompt typed
at_prompt-Agrees = record {
  seen = refl;
  left = (
    _,
    record { short = omega arith; comes = refl },
    (
      _,
      record { short = omega arith; comes = refl },
      (_, record { short = omega arith; comes = refl }, refl),
    ),
  );
}

run_hooks-Agrees_example : Agrees (handle_all (activations calls) at_prompt) (after_run typed)
run_hooks-Agrees_example =
    run_hooks-Agrees calls at_prompt typed (after_run typed) at_prompt-Agrees typed_ends

-- Over the sockets: a breakpoint at the line that is next, and a request for the stack there.
abbrev received : Session
received = session ide stepping (
    some (codes "break 2\n")
    ∷ some (codes "resume\n")
    ∷ some (codes "st")
    ∷ some (codes "ack\n")
    ∷ some (codes "step\n")
    ∷ [])

abbrev over_sockets : Dialogue
over_sockets = record {
  debugger = view received;
  lines = codes "break 2\n" ∷ codes "resume\n" ∷ codes "stack\n" ∷ codes "step\n" ∷ [];
}

stack-InPieces :
    (rest : List (Option Bytes))
    → InPieces (codes "stack\n") (some (codes "st") ∷ some (codes "ack\n") ∷ rest) rest
unfolding contains
stack-InPieces rest = record {
  first = codes "st";
  more = codes "ack\n" ∷ [];
  not_empty = λ e. cc;
  no_zero = refl;
  completes = (refl, refl, refl);
  whole = refl;
  short = omega arith;
  comes = refl;
}

over_sockets-Agrees : Agrees over_sockets received
unfolding contains
over_sockets-Agrees = record {
  seen = refl;
  left = (
    _,
    in_one_piece (codes "break 2\n") _ (omega arith) refl refl,
    (
      _,
      in_one_piece (codes "resume\n") _ (omega arith) refl refl,
      (_, stack-InPieces _, (_, in_one_piece (codes "step\n") _ (omega arith) refl refl, refl)),
    ),
  );
}

stack_fits : ide_stack_trace l ≡ ok (codes "a.lua|1|main|#a.lua|12|show|i|s|#")
unfolding ide_stack_trace show_int get_stack strcat sprintf eq_bytes
stack_fits = refl

over_sockets-EachRuns : EachRuns received.kind received.scripts calls over_sockets
unfolding get_file_line strtok atoi cut_at classify starts_with
over_sockets-EachRuns = (
  λ stops. (
    (_, refl),
    (
      record { word = codes "2"; more = []; number = pos 2; is_word = refl; is_number = refl },
      λ more. (tt, λ resumed. cc),
    ),
  ),
  (λ stops. ((_, refl), ((_, stack_fits), λ more. (tt, λ resumed. cc))), tt),
)

run_hooks-EachRuns_example :
    (t : Session) × (run_hooks calls received ≡ some (ok t))
    × Agrees (handle_all (activations calls) over_sockets) t
run_hooks-EachRuns_example =
    run_hooks-EachRuns calls over_sockets received over_sockets-Agrees (λ n. refl)
      over_sockets-EachRuns
