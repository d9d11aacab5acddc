-- ===== src/Session/Hook/Works.antt =====
-- Runs of the hook that do not end the process (`HookRoutine` of open-ldb/LuaDebugger.cpp).
use lua_eclipse_ide.Base.{ℕ, ◌==◌, ◌++◌, List, [], ◌∷◌, Option, none, some, true, ◌≡◌, ◌∙◌, refl}
use lua_eclipse_ide.Fault.{Result, ok, fault}
use lua_eclipse_ide.Breakpoints.{at_breakpoint, get_breakpoint_list}
use lua_eclipse_ide.Source.{SourceLines, get_file_line}
use lua_eclipse_ide.LuaView.{LuaState, Activation}
use lua_eclipse_ide.Session.Orders.{Order, obey, obey_all, obey_all-append}
use lua_eclipse_ide.Session.Dialogue.{
  Dialogue, arrival, stop_orders, follow, stops, handle, handle_all,
}
use lua_eclipse_ide.Session.Keeps.{Steady, Keeps, Keeps-print}
use lua_eclipse_ide.Session.Works.{
  Works-gets_listed, Works-lift_then, Worked, Works, works_rules, Works-print,
}
use lua_eclipse_ide.Session.Execute.Works.{Fits}
use lua_eclipse_ide.Session.Parser.Moves.{Moves-Steady, Outcome, Keeps-Outcome}
use lua_eclipse_ide.Session.Parser.Follows.{Agrees, Agrees-Steady, LandsOr}
use lua_eclipse_ide.Session.Parser.Works.{AllRun, Ready, Ready-Moves, command_parser-Ready}
use lua_eclipse_ide.Session.{Session, DebuggerType, M, stepping, continuing}
use lua_eclipse_ide.Session.Hook.{
  then_parse, without_parse, announce_breakpoint, announce_step, hook_routine, run_hooks,
}
use lua_eclipse_ide.Session.Hook.Runs.{announce_breakpoint-Keeps, announce_step-Keeps}
use lua_eclipse_ide.Session.Hook.Refines.{activations}
use lua_eclipse_ide.Session.Hook.Follows.{
  stop_orders-continuing, stop_orders-stepping, stops-Agrees, choose-LandsOr, go_on-LandsOr,
}

-- Wherever the debugger without details stops, the line is in the listing and the lines to come run.
abbrev pub EachRuns : DebuggerType → SourceLines → List (LuaState × Activation) → Dialogue → Type 0
EachRuns kind scripts [] a = Unit {0}
EachRuns kind scripts ((l, ar) ∷ calls) a =
    (stops ar a.debugger ≡ true
      → Fits (get_file_line scripts ar.source ar.current_line) × AllRun kind l a.lines)
    × EachRuns kind scripts calls (handle ar a)

module _ (kind : DebuggerType) (scripts : SourceLines) (l : LuaState) (ar : Activation) where
  module _ (a : Dialogue) (s : Session) (h : Ready kind scripts a s) where
    announce_breakpoint-Works :
        Fits (get_file_line scripts ar.source ar.current_line)
        → Works scripts (announce_breakpoint ar)
    unfolding announce_breakpoint
    announce_breakpoint-Works (text, e) =
        Works-gets_listed (λ all. all) _ (Works-lift_then text _ _ e (search works_rules depth 9))

    announce_step-Works :
        Fits (get_file_line scripts ar.source ar.current_line) → Works scripts (announce_step ar)
    unfolding announce_step
    announce_step-Works (text, e) =
        Works-gets_listed (λ all. all) _ (Works-lift_then text _ _ e (search works_rules))

    then_parse-Ready :
        (os : List Order) (m : M (Unit {0}))
        → Keeps os m
        → stop_orders ar a.debugger ≡ os ++ arrival ∷ []
        → Works scripts m
        → AllRun kind l a.lines
        → LandsOr ⊥
            (Ready kind scripts
              (follow ar.source (obey_all (stop_orders ar a.debugger) a.debugger) a.lines))
            (then_parse l ar (m s))
    then_parse-Ready os m k e w runs =
        rw (e, obey_all-append os (arrival ∷ []) a.debugger)
          (parsed (m s) (w.at s h.sends) (Keeps-Outcome m s k))
      where
        parsed :
            (r : Result (Unit {0} × Session))
            → Worked scripts r
            → Outcome (λ _ t. Steady os s t) r
            → LandsOr ⊥
                (Ready kind scripts
                  (follow ar.source (obey arrival (obey_all os a.debugger)) a.lines))
                (then_parse l ar r)
        parsed (fault e) w k = absurd w
        parsed (ok (_, t)) w k =
            command_parser-Ready kind scripts l ar (obey_all os a.debugger) a.lines t
              (Ready-Moves h (Moves-Steady k) (Agrees-Steady k h.agrees)) runs

    without_parse-Ready :
        (r : Result (Unit {0} × Session))
        → Worked scripts r
        → Outcome (λ _ t. Steady [] s t) r
        → LandsOr ⊥ (Ready kind scripts a) (without_parse r)
    without_parse-Ready (fault e) w k = absurd w
    without_parse-Ready (ok (_, t)) w k = Ready-Moves h (Moves-Steady k) (Agrees-Steady k h.agrees)

    hook_routine-Ready :
        (stops ar a.debugger ≡ true
          → Fits (get_file_line scripts ar.source ar.current_line) × AllRun kind l a.lines)
        → LandsOr ⊥ (Ready kind scripts (handle ar a)) (hook_routine l ar s)
    unfolding hook_routine get_breakpoint_list
    hook_routine-Ready runs = rw (stops-Agrees ar a s h.agrees) (
        choose-LandsOr ⊥ (Ready kind scripts) _ a s ar.is_line_event (s.state == continuing)
          (at_breakpoint ar.current_line (s.breakpoints ar.source)) (s.state == stepping) _ _ _ h
          (without_parse-Ready _ ((Works-print _).at s h.sends) (Keeps-Outcome _ s (Keeps-print _)))
          (λ stopping.
            let (listed, lines) = runs (stops-Agrees ar a s h.agrees ∙ stopping) in
            (
              λ e.
                  then_parse-Ready _ _ (announce_breakpoint-Keeps ar)
                    (stop_orders-continuing ar a s h.agrees e) (announce_breakpoint-Works listed)
                    lines,
              λ e.
                  then_parse-Ready _ _ (announce_step-Keeps ar)
                    (stop_orders-stepping ar a s h.agrees e) (announce_step-Works listed) lines,
            )))

run_hooks-Ready :
    (kind : DebuggerType) (scripts : SourceLines) (calls : List (LuaState × Activation))
    (a : Dialogue) (s : Session)
    → Ready kind scripts a s
    → EachRuns kind scripts calls a
    → LandsOr ⊥ (Ready kind scripts (handle_all (activations calls) a)) (run_hooks calls s)
unfolding run_hooks
run_hooks-Ready kind scripts [] a s h runs = h
run_hooks-Ready kind scripts ((l, ar) ∷ calls) a s h runs =
    go_on-LandsOr ⊥ (Ready kind scripts (handle ar a)) _ (hook_routine l ar s) (run_hooks calls)
      (hook_routine-Ready kind scripts l ar a s h runs.0)
      (λ t k. run_hooks-Ready kind scripts calls (handle ar a) t k runs.1)

LandsOr-ok :
    (P : Session → Type 0) (r : Option (Result Session))
    → LandsOr ⊥ P r
    → (t : Session) × (r ≡ some (ok t)) × P t
LandsOr-ok P none h = absurd h
LandsOr-ok P (some (fault e)) h = absurd h
LandsOr-ok P (some (ok t)) h = (t, refl, h)

-- What a run that does not end the process comes to can go on.
pub run_hooks_goes_on :
    (kind : DebuggerType) (scripts : SourceLines) (calls : List (LuaState × Activation))
    (a : Dialogue) (s : Session)
    → Ready kind scripts a s
    → EachRuns kind scripts calls a
    → (t : Session) × (run_hooks calls s ≡ some (ok t))
      × Ready kind scripts (handle_all (activations calls) a) t
run_hooks_goes_on kind scripts calls a s h runs =
    LandsOr-ok _ (run_hooks calls s) (run_hooks-Ready kind scripts calls a s h runs)

-- A run that starts from a session which agrees with a debugger without details does not end the
-- process, and ends in a session that agrees with what the debugger comes to at the same calls, if
-- no call of `send` fails, every line at which the debugger stops is in the listing, and the lines
-- that it then obeys run: they have a word or are empty, a number where the command wants one, and
-- what they ask for fits the buffers; at the prompt one of them lets the script go on.
pub run_hooks-EachRuns :
    (calls : List (LuaState × Activation)) (a : Dialogue) (s : Session)
    → Agrees a s
    → ((n : ℕ) → s.send_ok n ≡ true)
    → EachRuns s.kind s.scripts calls a
    → (t : Session) × (run_hooks calls s ≡ some (ok t))
      × Agrees (handle_all (activations calls) a) t
run_hooks-EachRuns calls a s g sends runs =
    let (t, e, h) =
      run_hooks_goes_on s.kind s.scripts calls a s
        (record { agrees = g; sends = record { each = sends; listed = refl }; same_kind = refl })
        runs in
    (t, e, h.agrees)
