-- ===== src/Session/Keeps/Steps.antt =====
-- What a step leaves alone and what it orders (open-ldb/LuaDebugger.cpp).
use lua_eclipse_ide.Base.{ℕ, ◌++◌, List, [], ◌∷◌, ◌≡◌, refl, sym, ◌∙◌, append-nil, append_assoc, ap}
use lua_eclipse_ide.Fault.{Result, ok, fault}
use lua_eclipse_ide.Session.{Output, Session}
use lua_eclipse_ide.Breakpoints.{Breakpoints}
use lua_eclipse_ide.Session.Orders.{
  events, view-unseen, Debugger, Order, view, obey_all, obey_all-append, IsMode, obey_all-IsMode,
}

-- `debuggerStates` holds one of the two values that the code gives it.
pub record IsValid (s : Session) : Type 0 where
  pub one_of : IsMode s.state

-- From `s` to `s'` the kind of debugger, the listings, the inputs and the sockets' behaviour stay,
-- output is added at the end, and the debugger has obeyed the orders `os`.
pub record Steady (os : List Order) (s s' : Session) : Type 0 where
  pub kind : s'.kind ≡ s.kind
  pub scripts : s'.scripts ≡ s.scripts
  pub inputs : s'.inputs ≡ s.inputs
  pub send_ok : s'.send_ok ≡ s.send_ok
  pub added : List Output
  pub trace : s'.trace ≡ s.trace ++ added
  pub obeyed : view s' ≡ obey_all os (view s)

pub Steady-IsValid : {os : List Order} {s t : Session} → Steady os s t → IsValid s → IsValid t
Steady-IsValid {os} {s} {t} h v = record {
  one_of = rw (ap (λ (d : Debugger). d.mode) h.obeyed) (obey_all-IsMode os (view s) v.one_of);
}

pub Steady-refl : (s : Session) → Steady [] s s
Steady-refl s = record {
  kind = refl;
  scripts = refl;
  inputs = refl;
  send_ok = refl;
  added = [];
  trace = sym (append-nil s.trace);
  obeyed = refl;
}

pub Steady-trans :
    {os ps : List Order} {s t u : Session} → Steady os s t → Steady ps t u → Steady (os ++ ps) s u
Steady-trans {os} {ps} {s} {t} {u} p q = record {
  kind = q.kind ∙ p.kind;
  scripts = q.scripts ∙ p.scripts;
  inputs = q.inputs ∙ p.inputs;
  send_ok = q.send_ok ∙ p.send_ok;
  added = p.added ++ q.added;
  trace =
      q.trace
      ∙ ap (λ (t : List Output). t ++ q.added) p.trace
      ∙ append_assoc s.trace p.added q.added;
  obeyed = q.obeyed ∙ ap (obey_all ps) p.obeyed ∙ sym (obey_all-append os ps (view s));
}

abbrev pub SteadyResult : {A : Type 0} → List Order → Session → Result (A × Session) → Type 0
SteadyResult os s (ok (a, s')) = Steady os s s'
SteadyResult os s (fault e) = Unit {0}

pub SteadyResult-trans :
    {A : Type 0} (os ps : List Order) {s t : Session} (r : Result (A × Session))
    → Steady os s t
    → SteadyResult ps t r
    → SteadyResult (os ++ ps) s r
SteadyResult-trans os ps (ok (a, s')) h k = Steady-trans h k
SteadyResult-trans os ps (fault e) h k = tt

-- New values of the fields that an action may change.
pub Steady-fields :
    (os : List Order) (s s' : Session) (added : List Output)
    → s'.kind ≡ s.kind
    → s'.scripts ≡ s.scripts
    → s'.inputs ≡ s.inputs
    → s'.send_ok ≡ s.send_ok
    → s'.trace ≡ s.trace ++ added
    → view s' ≡ obey_all os (view s)
    → Steady os s s'
Steady-fields os s s' added k sc i so t o = record {
  kind = k;
  scripts = sc;
  inputs = i;
  send_ok = so;
  added = added;
  trace = t;
  obeyed = o;
}

-- Orders that come to the same.
pub SteadyResult-same :
    {A : Type 0} (os ps : List Order) (s : Session) (r : Result (A × Session))
    → obey_all os (view s) ≡ obey_all ps (view s)
    → SteadyResult os s r
    → SteadyResult ps s r
SteadyResult-same os ps s (ok (a, t)) e h =
    Steady-fields ps s t h.added h.kind h.scripts h.inputs h.send_ok h.trace (h.obeyed ∙ e)
SteadyResult-same os ps s (fault f) e h = tt

-- Output that no event shows.
pub Steady-unseen :
    (s : Session) (out : Output) (sent : ℕ)
    → events (out ∷ []) ≡ []
    → Steady [] s (record s { sent = sent; trace = s.trace ++ out ∷ [] })
Steady-unseen s out sent h =
    Steady-fields [] s _ (out ∷ []) refl refl refl refl refl (view-unseen s out sent h)

-- Assignments to what the orders are about.
pub Steady-assigned :
    (os : List Order) (s : Session) (mode : ℕ) (all : Breakpoints)
    → view (record s { state = mode; breakpoints = all }) ≡ obey_all os (view s)
    → Steady os s (record s { state = mode; breakpoints = all })
Steady-assigned os s mode all o =
    Steady-fields os s _ [] refl refl refl refl (sym (append-nil s.trace)) o

pub Steady-stored :
    (os : List Order) (s : Session) (all : Breakpoints)
    → view (record s { breakpoints = all }) ≡ obey_all os (view s)
    → Steady os s (record s { breakpoints = all })
Steady-stored os s all o = Steady-assigned os s s.state all o
