-- ===== src/Session/Hook/Refines.antt =====
-- The hook refines a debugger that only has a type, a mode, counts of breakpoints and the events told
-- (`HookRoutine` of open-ldb/LuaDebugger.cpp).
use lua_eclipse_ide.Base.{
  codes, ◌++◌, ℕ, ◌<◌, List, [], ◌∷◌, Option, none, some, true, false, not, not-true, ◌==◌, ==_iff,
  if◌then◌else◌, then_branch, else_branch, Bool-cases, inl, inr, ℤ, ◌≡◌, refl, sym, ap, arith,
}
use lua_eclipse_ide.Fault.{Result, ok, fault}
use lua_eclipse_ide.Breakpoints.{at_breakpoint, get_breakpoint_list}
use lua_eclipse_ide.Breakpoints.Laws.{hits, at_breakpoint-hits}
use lua_eclipse_ide.LuaView.{LuaState, Activation}
use lua_eclipse_ide.Session.{Session, console, stepping, continuing, print}
use lua_eclipse_ide.Text.{show_nat}
use lua_eclipse_ide.Session.Orders.{Debugger, Order, view, obey_all, Obeyed, view-unseen}
use lua_eclipse_ide.Session.Hook.{
  then_parse, announce_breakpoint, announce_step, at_line_continuing, at_line_stepping,
  hook_routine, go_on, run_hooks,
}
use lua_eclipse_ide.Session.Hook.Runs.{
  then_parse-Ends, announce_breakpoint-Keeps, announce_step-Keeps, Ends-ok,
}

-- What a debugger may do at a call of the hook.
pub data Handles (d : Debugger) (ar : Activation) : Debugger → Type 0 where
  -- no new line
  not_a_line : ar.is_line_event ≡ false → Handles d ar d
  -- it continues, and no breakpoint stands at the line
  passes : d.mode ≡ continuing → d.count ar.source ar.current_line ≡ 0 → Handles d ar d
  -- it stops at a breakpoint and obeys
  at_break :
      d.mode ≡ continuing
      → 0 < d.count ar.source ar.current_line
      → (orders : List Order) → Handles d ar (obey_all orders d)
  -- it steps, so that it stops and obeys
  at_step : d.mode ≡ stepping → (orders : List Order) → Handles d ar (obey_all orders d)
  -- neither mode
  confused : (d.mode ≡ continuing → ⊥) → (d.mode ≡ stepping → ⊥) → Handles d ar d

pub data Handled : List Activation → Debugger → Debugger → Type 0 where
  script_ends : {d : Debugger} → Handled [] d d
  call :
      {ar : Activation} {calls : List Activation} {d e f : Debugger}
      → Handles d ar e
      → Handled calls e f
      → Handled (ar ∷ calls) d f

same_session : {s t : Session} → some (ok s) ≡ some (ok t) → s ≡ t
same_session h = cc

hit : (line : ℤ) (list : List ℤ) → at_breakpoint line list ≡ true → 0 < hits line list
hit line list h = ground (arith, at_breakpoint-hits line list)

unequal : (n m : ℕ) → (n == m) ≡ false → n ≡ m → ⊥
unequal n m h k = ground arith

module _ (l : LuaState) (ar : Activation) (s t : Session) where
  stopped-break : then_parse l ar (announce_breakpoint ar s) ≡ some (ok t) → Obeyed s t
  stopped-break h =
      (Ends-ok s t _
        (then_parse-Ends l ar s (announce_breakpoint ar) (announce_breakpoint-Keeps ar)) h).obeyed

  stopped-step : then_parse l ar (announce_step ar s) ≡ some (ok t) → Obeyed s t
  stopped-step h =
      (Ends-ok s t _ (then_parse-Ends l ar s (announce_step ar) (announce_step-Keeps ar)) h).obeyed

  continuing-Handles :
      s.state ≡ continuing → at_line_continuing l ar s ≡ some (ok t) → Handles (view s) ar (view t)
  unfolding get_breakpoint_list
  continuing-Handles mode h =
      elim (Bool-cases (at_breakpoint ar.current_line (s.breakpoints ar.source))) [
        | inl e ↦
            let o = stopped-break (rw e at h) in
            rw o.result (at_break mode (hit ar.current_line (s.breakpoints ar.source) e) o.orders)
        | inr e ↦
            rw (sym (ap view (same_session (rw e at h))))
              (passes mode ((at_breakpoint-hits ar.current_line (s.breakpoints ar.source)).0 e))
      ]

  stepping-Handles :
      (s.state ≡ continuing → ⊥)
      → at_line_stepping l ar s ≡ some (ok t)
      → Handles (view s) ar (view t)
  unfolding print
  stepping-Handles mode h = elim (Bool-cases (s.state == stepping)) [
    | inl e ↦
        let o = stopped-step (rw e at h) in
        rw o.result (at_step ((==_iff s.state stepping).0 e) o.orders)
    | inr e ↦ rw (sym (ap view (same_session (rw e at h)))) (
        rw (view-unseen s (console (codes "Error: unknown state " ++ show_nat s.state)) s.sent refl)
          (confused mode (unequal s.state stepping e)))
  ]

  line_event-Handles :
      (if s.state == continuing then at_line_continuing l ar s else at_line_stepping l ar s)
        ≡ some (ok t)
      → Handles (view s) ar (view t)
  line_event-Handles h = elim (Bool-cases (s.state == continuing)) [
    | inl e ↦
        continuing-Handles ((==_iff s.state continuing).0 e)
          (then_branch (s.state == continuing) _ _ e h)
    | inr e ↦
        stepping-Handles (unequal s.state continuing e)
          (else_branch (s.state == continuing) _ _ e h)
  ]

  hook_routine-Handles : hook_routine l ar s ≡ some (ok t) → Handles (view s) ar (view t)
  unfolding hook_routine
  hook_routine-Handles h = elim (Bool-cases (not ar.is_line_event)) [
    | inl other ↦
        rw
          (sym
            (ap view (same_session (then_branch (not ar.is_line_event) (some (ok s)) _ other h))))
          (not_a_line (not-true ar.is_line_event other))
    | inr line ↦ line_event-Handles (else_branch (not ar.is_line_event) (some (ok s)) _ line h)
  ]

go_on_ok :
    (r : Option (Result Session)) (next : Session → Option (Result Session)) {t : Session}
    → go_on next r ≡ some (ok t)
    → (u : Session) × (r ≡ some (ok u)) × (next u ≡ some (ok t))
go_on_ok none next h = cc
go_on_ok (some (fault e)) next h = cc
go_on_ok (some (ok u)) next h = (u, refl, h)

-- The calls as the debugger without details sees them.
abbrev pub activations : List (LuaState × Activation) → List Activation
activations [] = []
activations ((l, ar) ∷ calls) = ar ∷ activations calls

-- A run of the hook that does not end the process is, whatever the inputs, a run of a debugger that has
-- nothing but a type, a mode, the number of breakpoints at each line of each script and the events
-- told: at a new line it passes if it continues and has no breakpoint there, and obeys orders if it
-- steps or has one, each of which sets or clears one breakpoint, changes the mode or tells an event;
-- in no other mode, and at no other call, does it change.
run_hooks-Handled :
    (calls : List (LuaState × Activation)) (s t : Session)
    → run_hooks calls s ≡ some (ok t)
    → Handled (activations calls) (view s) (view t)
unfolding run_hooks
run_hooks-Handled [] s t h = rw (sym (ap view (same_session h))) script_ends
run_hooks-Handled ((l, ar) ∷ calls) s t h =
    let (u, e, rest) = go_on_ok (hook_routine l ar s) (run_hooks calls) h in
    call (hook_routine-Handles l ar s u e) (run_hooks-Handled calls u t rest)
