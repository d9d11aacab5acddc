-- ===== src/Session/Orders.antt =====
-- The debugger of open-ldb/LuaDebugger.cpp without its details: its type, a mode, how many breakpoints
-- stand at each line of each script, and what the environment has been told on the event socket. The
-- order of the breakpoints, the other output and the inputs are left out.
use lua_eclipse_ide.Base.{
  ℕ, ◌+◌, ◌-◌, Bytes, eq_bytes, ℤ, eq_int, List, [], ◌∷◌, ◌++◌, if◌then◌else◌, none, some,
  eq_bytes_iff, eq_int_iff, ◌≡◌, refl, sym, ap, ◌∙◌, fun_ext, arith, append-nil, append_assoc, ◌⊎◌,
  inl, inr,
}
use lua_eclipse_ide.Breakpoints.{Breakpoints, set_breakpoint_list, clear_breakpoint}
use lua_eclipse_ide.Breakpoints.Laws.{
  hits, hits-set_breakpoint_list, hits-clear_breakpoint, at_breakpoint-hits, clear_breakpoint-none,
}
use lua_eclipse_ide.Session.{
  Session, DebuggerType, ldb, ide, Output, console, command, event, by_kind, stepping, continuing,
}

pub record Debugger : Type 0 where
  pub kind : DebuggerType
  pub mode : ℕ
  pub count : Bytes → ℤ → ℕ
  pub told : List Bytes

abbrev pub counts : Breakpoints → Bytes → ℤ → ℕ
counts all script line = hits line (all script)

-- What has gone to the event socket.
abbrev pub events : List Output → List Bytes
events [] = []
events (console text ∷ trace) = events trace
events (command text ∷ trace) = events trace
events (event text ∷ trace) = text ∷ events trace

abbrev pub view : Session → Debugger
view s = record {
  kind = s.kind;
  mode = s.state;
  count = counts s.breakpoints;
  told = events s.trace;
}

-- What the commands can do to it.
pub data Order : Type 0 where
  set_at clear_at : Bytes → ℤ → Order
  to_step to_continue : Order
  -- an event, and events for the environment if there is one
  tell : Bytes → Order
  tell_ide : List Bytes → Order

abbrev pub one_at : Bytes → ℤ → Bytes → ℤ → ℕ
one_at script line other at = if eq_bytes script other then if eq_int line at then 1 else 0 else 0

abbrev pub obey : Order → Debugger → Debugger
obey (set_at script line) d = record d {
  count = λ other at. d.count other at + one_at script line other at;
}
obey (clear_at script line) d = record d {
  count = λ other at. d.count other at - one_at script line other at;
}
obey to_step d = record d { mode = stepping }
obey to_continue d = record d { mode = continuing }
obey (tell text) d = record d { told = d.told ++ text ∷ [] }
obey (tell_ide texts) d = record d { told = d.told ++ by_kind d.kind [] texts }

abbrev pub obey_all : List Order → Debugger → Debugger
obey_all [] d = d
obey_all (o ∷ os) d = obey_all os (obey o d)

pub obey_all-append :
    (os ps : List Order) (d : Debugger) → obey_all (os ++ ps) d ≡ obey_all ps (obey_all os d)
obey_all-append [] ps d = refl
obey_all-append (o ∷ os) ps d = obey_all-append os ps (obey o d)

-- A mode that the debugger gives itself.
abbrev pub IsMode : ℕ → Type 0
IsMode n = (n ≡ stepping) ⊎ (n ≡ continuing)

obey-IsMode : (o : Order) (d : Debugger) → IsMode d.mode → IsMode (obey o d).mode
obey-IsMode (set_at script line) d h = h
obey-IsMode (clear_at script line) d h = h
obey-IsMode to_step d h = inl refl
obey-IsMode to_continue d h = inr refl
obey-IsMode (tell text) d h = h
obey-IsMode (tell_ide texts) d h = h

pub obey_all-IsMode : (os : List Order) (d : Debugger) → IsMode d.mode → IsMode (obey_all os d).mode
obey_all-IsMode [] d h = h
obey_all-IsMode (o ∷ os) d h = obey_all-IsMode os (obey o d) (obey-IsMode o d h)

-- From `s` to `t` the debugger has obeyed some orders.
pub record Obeyed (s t : Session) : Type 0 where
  pub orders : List Order
  pub result : view t ≡ obey_all orders (view s)

pub Obeyed-same : {s t : Session} → view t ≡ view s → Obeyed s t
Obeyed-same h = record { orders = []; result = h }

pub Obeyed-trans : {s t u : Session} → Obeyed s t → Obeyed t u → Obeyed s u
Obeyed-trans {s} {t} {u} p q = record {
  orders = p.orders ++ q.orders;
  result =
      q.result ∙ ap (obey_all q.orders) p.result ∙ sym (obey_all-append p.orders q.orders (view s));
}

pub view-set_breakpoint_list :
    (s : Session) (script : Bytes) (line : ℤ)
    → view (record s { breakpoints = set_breakpoint_list s.breakpoints script line })
      ≡ obey (set_at script line) (view s)
view-set_breakpoint_list s script line =
    ap (λ c. record { kind = s.kind; mode = s.state; count = c; told = events s.trace })
      (fun_ext
        (λ other. fun_ext (λ at. hits-set_breakpoint_list s.breakpoints script other line at)))

minus : (a b c : ℕ) → a ≡ b + c → b ≡ a - c
minus a b c h = omega arith

pub view-clear_breakpoint :
    (s : Session) (script : Bytes) (line : ℤ) {left : Breakpoints}
    → clear_breakpoint s.breakpoints script line ≡ some left
    → view (record s { breakpoints = left }) ≡ obey (clear_at script line) (view s)
view-clear_breakpoint s script line h =
    ap (λ c. record { kind = s.kind; mode = s.state; count = c; told = events s.trace })
      (fun_ext (λ other.
        fun_ext (λ at. minus _ _ _ (hits-clear_breakpoint s.breakpoints script other line at h))))

nothing_to_clear :
    (all : Breakpoints) (script other : Bytes) (line at : ℤ)
    → hits line (all script) ≡ 0
    → hits at (all other) ≡ hits at (all other) - one_at script line other at
nothing_to_clear all script other line at h =
    ground (arith, eq_bytes_iff script other, eq_int_iff line at)

-- A line at which nothing is set may be cleared.
pub view-clear_breakpoint-none :
    (s : Session) (script : Bytes) (line : ℤ)
    → clear_breakpoint s.breakpoints script line ≡ none
    → view s ≡ obey (clear_at script line) (view s)
view-clear_breakpoint-none s script line h =
    let missing =
      (at_breakpoint-hits line (s.breakpoints script)).0
        ((clear_breakpoint-none s.breakpoints script line).0 h) in
    ap (λ c. record { kind = s.kind; mode = s.state; count = c; told = events s.trace })
      (fun_ext
        (λ other. fun_ext (λ at. nothing_to_clear s.breakpoints script other line at missing)))

pub events-append : (a b : List Output) → events (a ++ b) ≡ events a ++ events b
events-append [] b = refl
events-append (console text ∷ a) b = events-append a b
events-append (command text ∷ a) b = events-append a b
events-append (event text ∷ a) b = ap (λ (told : List Bytes). text ∷ told) (events-append a b)

-- Other output is not seen.
pub view-unseen :
    (s : Session) (out : Output) (sent : ℕ)
    → events (out ∷ []) ≡ []
    → view (record s { sent = sent; trace = s.trace ++ out ∷ [] }) ≡ view s
view-unseen s out sent h =
    ap (λ told. record { kind = s.kind; mode = s.state; count = counts s.breakpoints; told = told })
      (events-append s.trace (out ∷ [])
        ∙ ap (λ (told : List Bytes). events s.trace ++ told) h
        ∙ append-nil (events s.trace))

pub view-event :
    (s : Session) (text : Bytes) (sent : ℕ)
    → view (record s { sent = sent; trace = s.trace ++ event text ∷ [] })
      ≡ obey (tell text) (view s)
view-event s text sent =
    ap (λ told. record { kind = s.kind; mode = s.state; count = counts s.breakpoints; told = told })
      (events-append s.trace (event text ∷ []))

-- What orders each event, one by one.
abbrev pub tell_each : List Bytes → List Order
tell_each [] = []
tell_each (text ∷ texts) = tell text ∷ tell_each texts

pub obey_all-tell_each :
    (texts : List Bytes) (d : Debugger)
    → obey_all (tell_each texts) d ≡ record d { told = d.told ++ texts }
obey_all-tell_each [] d = ap (λ told. record d { told = told }) (sym (append-nil d.told))
obey_all-tell_each (text ∷ texts) d =
    obey_all-tell_each texts (obey (tell text) d)
    ∙ ap (λ told. record d { told = told }) (append_assoc d.told (text ∷ []) texts)

-- At the prompt there is no environment.
pub tell_ide_ldb : (texts : List Bytes) (d : Debugger) → d.kind ≡ ldb → obey (tell_ide texts) d ≡ d
tell_ide_ldb texts d e =
    ap (λ told. record d { told = told })
      (ap (λ k. d.told ++ by_kind k [] texts) e ∙ append-nil d.told)

pub tell_ide_ide :
    (texts : List Bytes) (d : Debugger)
    → d.kind ≡ ide
    → obey (tell_ide texts) d ≡ obey_all (tell_each texts) d
tell_ide_ide texts d e =
    ap (λ k. record d { told = d.told ++ by_kind k [] texts }) e ∙ sym (obey_all-tell_each texts d)
