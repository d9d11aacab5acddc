-- ===== src/Session/Hook/Follows.antt =====
-- A run of the hook follows the lines that are typed or received, as `Dialogue` has it
-- (`HookRoutine` and `commandParser` of open-ldb/LuaDebugger.cpp).
use lua_eclipse_ide.Base.{
  ◌==◌, ◌++◌, List, [], ◌∷◌, Option, none, some, Bool, true, false, not, if◌then◌else◌, ◌≡◌, refl,
  sym, ◌∙◌, ap, arith, ℤ,
}
use lua_eclipse_ide.Fault.{Result, ok, fault}
use lua_eclipse_ide.Breakpoints.{at_breakpoint, get_breakpoint_list}
use lua_eclipse_ide.Breakpoints.Laws.{hits, at_breakpoint-hits}
use lua_eclipse_ide.LuaView.{LuaState, Activation}
use lua_eclipse_ide.Session.Orders.{Order, obey, obey_all, obey_all-append}
use lua_eclipse_ide.Session.Dialogue.{
  Dialogue, arrival, at_break, stop_orders, follow, stops, handle, handle_all,
}
use lua_eclipse_ide.Session.Keeps.{Steady, Keeps, Keeps-print}
use lua_eclipse_ide.Session.Parser.Moves.{Outcome, Keeps-Outcome}
use lua_eclipse_ide.Session.Parser.Follows.{
  Agrees, Agrees-Steady, LandsOr, Lands, command_parser-Lands,
}
use lua_eclipse_ide.Session.{Session, M, stepping, continuing}
use lua_eclipse_ide.Session.Hook.{then_parse, without_parse, hook_routine, go_on, run_hooks}
use lua_eclipse_ide.Session.Hook.Runs.{announce_breakpoint-Keeps, announce_step-Keeps}
use lua_eclipse_ide.Session.Hook.Refines.{activations}

-- The hook stops where the debugger without details does.
abbrev pub stops_here : Activation → Session → Bool
stops_here ar s =
    if not ar.is_line_event
    then false
    else if s.state == continuing
    then at_breakpoint ar.current_line (s.breakpoints ar.source)
    else s.state == stepping

at_breakpoint_counted :
    (line : ℤ) (list : List ℤ) → at_breakpoint line list ≡ not (hits line list == 0)
at_breakpoint_counted line list = ground (arith, at_breakpoint-hits line list)

pub stops-Agrees :
    (ar : Activation) (a : Dialogue) (s : Session)
    → Agrees a s
    → stops ar a.debugger ≡ stops_here ar s
stops-Agrees ar a s g =
    ap (stops ar) (sym g.seen)
    ∙ ap
        (λ b.
          if not ar.is_line_event
          then false
          else if s.state == continuing
          then b
          else s.state == stepping)
        (sym (at_breakpoint_counted ar.current_line (s.breakpoints ar.source)))

-- What is told at a stop, where the hook continues and where it steps.
module _ (ar : Activation) (a : Dialogue) (s : Session) (g : Agrees a s) where
  stop_orders-Agrees :
      stop_orders ar a.debugger
      ≡ (if s.state == continuing then at_break ar ∷ [] else []) ++ arrival ∷ []
  stop_orders-Agrees = ap (stop_orders ar) (sym g.seen)

  pub stop_orders-continuing :
      (s.state == continuing) ≡ true → stop_orders ar a.debugger ≡ at_break ar ∷ arrival ∷ []
  stop_orders-continuing e =
      stop_orders-Agrees ∙ ap (λ b. (if b then at_break ar ∷ [] else []) ++ arrival ∷ []) e

  pub stop_orders-stepping :
      (s.state == continuing) ≡ false → stop_orders ar a.debugger ≡ arrival ∷ []
  stop_orders-stepping e =
      stop_orders-Agrees ∙ ap (λ b. (if b then at_break ar ∷ [] else []) ++ arrival ∷ []) e

-- Stopping or not, in the order of the hook's tests.
pub choose-LandsOr :
    (F : Type 0) (P : Dialogue → Session → Type 0) (leave stay : Dialogue) (s : Session)
    (line_event continues at_line steps : Bool) (break step other : Option (Result Session))
    → P stay s
    → LandsOr F (P stay) other
    → ((if not line_event then false else if continues then at_line else steps) ≡ true
        → (continues ≡ true → LandsOr F (P leave) break)
          × (continues ≡ false → LandsOr F (P leave) step))
    → LandsOr F
        (P (
          if (if not line_event then false else if continues then at_line else steps)
          then leave
          else stay))
        (if not line_event
          then some (ok s)
          else if continues
          then (if at_line then break else some (ok s))
          else (if steps then step else other))
choose-LandsOr F P leave stay s false continues at_line steps break step other k o h = k
choose-LandsOr F P leave stay s true true true steps break step other k o h = (h refl).0 refl
choose-LandsOr F P leave stay s true true false steps break step other k o h = k
choose-LandsOr F P leave stay s true false at_line true break step other k o h = (h refl).1 refl
choose-LandsOr F P leave stay s true false at_line false break step other k o h = o

module _ (l : LuaState) (ar : Activation) (a : Dialogue) (s : Session) (g : Agrees a s) where
  then_parse-Lands :
      (os : List Order) (m : M (Unit {0}))
      → Keeps os m
      → stop_orders ar a.debugger ≡ os ++ arrival ∷ []
      → Lands
          (follow ar.source (obey_all (stop_orders ar a.debugger) a.debugger) a.lines)
          (then_parse l ar (m s))
  then_parse-Lands os m k e =
      rw (e, obey_all-append os (arrival ∷ []) a.debugger) (parsed (m s) (Keeps-Outcome m s k))
    where
      parsed :
          (r : Result (Unit {0} × Session))
          → Outcome (λ _ t. Steady os s t) r
          → Lands
              (follow ar.source (obey arrival (obey_all os a.debugger)) a.lines)
              (then_parse l ar r)
      parsed (fault e) h = tt
      parsed (ok (_, t)) h =
          command_parser-Lands l ar (obey_all os a.debugger) a.lines t (Agrees-Steady h g)

  without_parse-Lands :
      (r : Result (Unit {0} × Session))
      → Outcome (λ _ t. Steady [] s t) r
      → Lands a (without_parse r)
  without_parse-Lands (fault e) h = tt
  without_parse-Lands (ok (_, t)) h = Agrees-Steady h g

  hook_routine-Lands : Lands (handle ar a) (hook_routine l ar s)
  unfolding hook_routine get_breakpoint_list
  hook_routine-Lands = rw (stops-Agrees ar a s g) (
      choose-LandsOr (Unit {0}) Agrees _ a s ar.is_line_event (s.state == continuing)
        (at_breakpoint ar.current_line (s.breakpoints ar.source)) (s.state == stepping) _ _ _ g
        (without_parse-Lands _ (Keeps-Outcome _ s (Keeps-print _)))
        (λ stopping. (
          λ e.
              then_parse-Lands _ _ (announce_breakpoint-Keeps ar)
                (stop_orders-continuing ar a s g e),
          λ e. then_parse-Lands _ _ (announce_step-Keeps ar) (stop_orders-stepping ar a s g e),
        )))

pub go_on-LandsOr :
    (F : Type 0) (P Q : Session → Type 0) (r : Option (Result Session))
    (next : Session → Option (Result Session))
    → LandsOr F P r
    → ((t : Session) → P t → LandsOr F Q (next t))
    → LandsOr F Q (go_on next r)
go_on-LandsOr F P Q none next h k = h
go_on-LandsOr F P Q (some (fault e)) next h k = h
go_on-LandsOr F P Q (some (ok t)) next h k = k t h

run_hooks-Lands :
    (calls : List (LuaState × Activation)) (a : Dialogue) (s : Session)
    → Agrees a s
    → Lands (handle_all (activations calls) a) (run_hooks calls s)
unfolding run_hooks
run_hooks-Lands [] a s g = g
run_hooks-Lands ((l, ar) ∷ calls) a s g =
    go_on-LandsOr (Unit {0}) (Agrees (handle ar a)) _ (hook_routine l ar s) (run_hooks calls)
      (hook_routine-Lands l ar a s g) (run_hooks-Lands calls (handle ar a))

Lands-ok :
    (a : Dialogue) (r : Option (Result Session)) {t : Session}
    → Lands a r
    → r ≡ some (ok t)
    → Agrees a t
Lands-ok a r h e = rw e at h

-- What a debugger without details does at the calls of the hook, the hook does: where it starts
-- from a session that agrees with that debugger (the same type, mode, counts of breakpoints, events
-- told and lines to come, each line short enough for the buffer, over the sockets with a newline
-- and no zero byte, in at most six pieces) and the run does not end the process, it ends in a
-- session that agrees with what the debugger has come to. So at each stop, and at no other call,
-- the lines are obeyed up to the first that lets the script go on, and the environment is told
-- exactly the events that a stop and the commands step, continue and suspend tell.
pub run_hooks-Agrees :
    (calls : List (LuaState × Activation)) (a : Dialogue) (s t : Session)
    → Agrees a s
    → run_hooks calls s ≡ some (ok t)
    → Agrees (handle_all (activations calls) a) t
run_hooks-Agrees calls a s t g e = Lands-ok _ (run_hooks calls s) (run_hooks-Lands calls a s g) e
