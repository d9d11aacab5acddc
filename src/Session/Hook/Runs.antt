-- ===== src/Session/Hook/Runs.antt =====
-- Which runs of the hook end, and what a run leaves alone.
use lua_eclipse_ide.Base.{
  ◌++◌, codes, List, [], ◌∷◌, Option, none, some, Bool, true, false, not, if◌then◌else◌, ◌≡◌, ◌≢◌,
  refl, length, ◌==◌, ◌≤◌,
}
use lua_eclipse_ide.Fault.{Result, ok, fault}
use lua_eclipse_ide.Text.{show_nat}
use lua_eclipse_ide.Breakpoints.{at_breakpoint, get_breakpoint_list}
use lua_eclipse_ide.LuaView.{LuaState, Activation}
use lua_eclipse_ide.Session.Keeps.{
  IsValid, Steady, Keeps, keeps_rules, Keeps-print, Keeps-bind, Keeps-then, Keeps-gets, Keeps-lift,
  Keeps-tell_ide, Keeps-send-event,
}
use lua_eclipse_ide.Session.Orders.{Order}
use lua_eclipse_ide.Session.Dialogue.{at_break}
use lua_eclipse_ide.Session.{
  Session, DebuggerType, ldb, ide, M, Output, print, stepping, continuing,
}
use lua_eclipse_ide.Session.Parser.{command_parser}
use lua_eclipse_ide.Session.Parser.Moves.{Moves, Moves-Steady, Moves-refl, Outcome, Keeps-Outcome}
use lua_eclipse_ide.Session.Parser.Ends.{Ends, Ends-Moves, command_parser-Ends}
use lua_eclipse_ide.Session.Hook.{
  then_parse, without_parse, at_line_continuing, at_line_stepping, announce_breakpoint,
  announce_step, hook_routine, go_on, run_hooks,
}

pub announce_breakpoint-Keeps :
    (ar : Activation) → Keeps (at_break ar ∷ []) (announce_breakpoint ar)
unfolding announce_breakpoint
announce_breakpoint-Keeps ar = Keeps-bind _ _ (Keeps-gets _) (λ scripts.
    Keeps-bind _ _ (Keeps-lift _) (λ text.
      Keeps-tell_ide _ _ _ (search keeps_rules)
        (Keeps-then _ _ (Keeps-send-event _) (λ _. Keeps-send-event _))))

pub announce_step-Keeps : (ar : Activation) → Keeps [] (announce_step ar)
unfolding announce_step
announce_step-Keeps ar = search keeps_rules depth 9

pub then_parse-Ends :
    {os : List Order} (l : LuaState) (ar : Activation) (s : Session) (m : M (Unit {0}))
    → Keeps os m
    → Ends s (then_parse l ar (m s))
then_parse-Ends {os} l ar s m k = ended (m s) (Keeps-Outcome m s k)
  where
    ended :
        (r : Result (Unit {0} × Session))
        → Outcome (λ _ t. Steady os s t) r
        → Ends s (then_parse l ar r)
    ended (fault e) h = tt
    ended (ok (_, t)) h =
        Ends-Moves (command_parser l ar t) (Moves-Steady h) (command_parser-Ends l ar t)

pub without_parse-Ends :
    (s : Session) (r : Result (Unit {0} × Session))
    → Outcome (λ _ t. Steady [] s t) r
    → Ends s (without_parse r)
without_parse-Ends s (fault e) h = tt
without_parse-Ends s (ok (_, t)) h = Moves-Steady h

Ends-if :
    (s : Session) (b : Bool) (m n : Option (Result Session))
    → Ends s m
    → Ends s n
    → Ends s (if b then m else n)
Ends-if s true m n h k = h
Ends-if s false m n h k = k

pub at_line_continuing-Ends :
    (l : LuaState) (ar : Activation) (s : Session) → Ends s (at_line_continuing l ar s)
at_line_continuing-Ends l ar s =
    Ends-if s (at_breakpoint ar.current_line (get_breakpoint_list s.breakpoints ar.source))
      (then_parse l ar (announce_breakpoint ar s)) (some (ok s))
      (then_parse-Ends l ar s (announce_breakpoint ar) (announce_breakpoint-Keeps ar))
      (Moves-refl s)

at_line_stepping-Ends :
    (l : LuaState) (ar : Activation) (s : Session) → Ends s (at_line_stepping l ar s)
at_line_stepping-Ends l ar s =
    let message = codes "Error: unknown state " ++ show_nat s.state in
    Ends-if s (s.state == stepping) (then_parse l ar (announce_step ar s))
      (without_parse (print message s))
      (then_parse-Ends l ar s (announce_step ar) (announce_step-Keeps ar))
      (without_parse-Ends s (print message s)
        (Keeps-Outcome (print message) s (Keeps-print message)))

hook_routine-Ends : (l : LuaState) (ar : Activation) (s : Session) → Ends s (hook_routine l ar s)
unfolding hook_routine
hook_routine-Ends l ar s =
    Ends-if s (not ar.is_line_event) (some (ok s))
      (if s.state == continuing then at_line_continuing l ar s else at_line_stepping l ar s)
      (Moves-refl s)
      (Ends-if s (s.state == continuing) (at_line_continuing l ar s) (at_line_stepping l ar s)
        (at_line_continuing-Ends l ar s) (at_line_stepping-Ends l ar s))

go_on-Ends :
    (s : Session) (r : Option (Result Session)) (next : Session → Option (Result Session))
    → Ends s r
    → ((t : Session) → Ends t (next t))
    → Ends s (go_on next r)
go_on-Ends s none next h k = h
go_on-Ends s (some (fault e)) next h k = tt
go_on-Ends s (some (ok t)) next h k = Ends-Moves (next t) h (k t)

run_hooks-Ends : (calls : List (LuaState × Activation)) (s : Session) → Ends s (run_hooks calls s)
unfolding run_hooks
run_hooks-Ends [] s = Moves-refl s
run_hooks-Ends ((l, ar) ∷ calls) s =
    go_on-Ends s (hook_routine l ar s) (run_hooks calls) (hook_routine-Ends l ar s)
      (run_hooks-Ends calls)

not_at_prompt : (k : DebuggerType) → k ≡ ide → k ≢ ldb
not_at_prompt ldb e = λ h. cc
not_at_prompt ide e = λ h. cc

Ends-total :
    (s : Session) (r : Option (Result Session))
    → s.kind ≡ ide
    → Ends s r
    → (q : Result Session) × (r ≡ some q)
Ends-total s none e h = absurd (not_at_prompt s.kind e h)
Ends-total s (some q) e h = (q, refl)

pub Ends-ok : (s t : Session) (r : Option (Result Session)) → Ends s r → r ≡ some (ok t) → Moves s t
Ends-ok s t r h e = rw e at h

-- Over the sockets, whatever the script does and whatever is received, a run of the hook over its
-- lines ends: it leaves a session, or the process ends by a fault. No command loop goes round for
-- ever.
pub run_hooks_total :
    (calls : List (LuaState × Activation)) (s : Session)
    → s.kind ≡ ide
    → (r : Result Session) × (run_hooks calls s ≡ some r)
run_hooks_total calls s e = Ends-total s (run_hooks calls s) e (run_hooks-Ends calls s)

-- `debuggerStates` is stepping or continuing after any run from such a state that does not end the
-- process.
pub run_hooks-IsValid :
    (calls : List (LuaState × Activation)) (s t : Session)
    → IsValid s
    → run_hooks calls s ≡ some (ok t)
    → IsValid t
run_hooks-IsValid calls s t v e =
    (Ends-ok s t (run_hooks calls s) (run_hooks-Ends calls s) e).valid v

-- A run that does not end the process leaves the kind of debugger and the source lines as they
-- were, adds output only behind what there was, and has no more inputs left than before.
pub run_hooks_keeps :
    (calls : List (LuaState × Activation)) (s t : Session)
    → run_hooks calls s ≡ some (ok t)
    → (t.kind ≡ s.kind)
      × (t.scripts ≡ s.scripts)
      × ((added : List Output) × (t.trace ≡ s.trace ++ added))
      × (length t.inputs ≤ length s.inputs)
run_hooks_keeps calls s t e =
    let m = Ends-ok s t (run_hooks calls s) (run_hooks-Ends calls s) e in
    (m.kind, m.scripts, (m.added, m.trace), m.fewer)
