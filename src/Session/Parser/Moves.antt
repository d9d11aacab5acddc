-- ===== src/Session/Parser/Moves.antt =====
-- What a round of the command loop does to the state: as `Steady`, but it takes inputs.
use lua_eclipse_ide.Base.{
  ◌≤◌, Bytes, ◌++◌, List, [], ◌∷◌, Option, ◌≡◌, refl, sym, ◌∙◌, ap, append-nil, append_assoc,
  length, arith,
}
use lua_eclipse_ide.Fault.{Result, ok, fault}
use lua_eclipse_ide.Session.Keeps.{IsValid, Steady, Steady-IsValid, SteadyResult, Keeps}
use lua_eclipse_ide.Session.Orders.{Order, Obeyed, Obeyed-same, Obeyed-trans, view-unseen}
use lua_eclipse_ide.Session.{Output, Session, M}

pub record Moves (s s' : Session) : Type 0 where
  pub kind : s'.kind ≡ s.kind
  pub scripts : s'.scripts ≡ s.scripts
  pub send_ok : s'.send_ok ≡ s.send_ok
  pub added : List Output
  pub trace : s'.trace ≡ s.trace ++ added
  pub valid : IsValid s → IsValid s'
  pub obeyed : Obeyed s s'
  pub fewer : length s'.inputs ≤ length s.inputs

pub Moves-trans : {s t u : Session} → Moves s t → Moves t u → Moves s u
Moves-trans {s} {t} {u} p q = record {
  kind = q.kind ∙ p.kind;
  scripts = q.scripts ∙ p.scripts;
  send_ok = q.send_ok ∙ p.send_ok;
  added = p.added ++ q.added;
  trace =
      q.trace
      ∙ ap (λ (t : List Output). t ++ q.added) p.trace
      ∙ append_assoc s.trace p.added q.added;
  valid = λ v. q.valid (p.valid v);
  obeyed = Obeyed-trans p.obeyed q.obeyed;
  fewer = omega (arith, p.fewer, q.fewer);
}

pub Moves-Steady : {os : List Order} {s t : Session} → Steady os s t → Moves s t
Moves-Steady {os} p = record {
  kind = p.kind;
  scripts = p.scripts;
  send_ok = p.send_ok;
  added = p.added;
  trace = p.trace;
  valid = Steady-IsValid p;
  obeyed = record { orders = os; result = p.obeyed };
  fewer = omega (arith, ap length p.inputs);
}

pub Moves-refl : (s : Session) → Moves s s
Moves-refl s = record {
  kind = refl;
  scripts = refl;
  send_ok = refl;
  added = [];
  trace = sym (append-nil s.trace);
  valid = λ v. v;
  obeyed = Obeyed-same refl;
  fewer = omega arith;
}

-- Some inputs have been taken.
pub Moves-inputs :
    (s : Session) (inputs : List (Option Bytes))
    → length inputs ≤ length s.inputs
    → Moves s (record s { inputs = inputs })
Moves-inputs s inputs h = record {
  kind = refl;
  scripts = refl;
  send_ok = refl;
  added = [];
  trace = sym (append-nil s.trace);
  valid = λ v. record { one_of = v.one_of };
  obeyed = Obeyed-same refl;
  fewer = h;
}

-- Some inputs have been taken, and a message printed.
pub Moves-printed :
    (s : Session) (inputs : List (Option Bytes)) (text : Bytes)
    → length inputs ≤ length s.inputs
    → Moves s (record s { inputs = inputs; trace = s.trace ++ Output.console text ∷ [] })
Moves-printed s inputs text h = record {
  kind = refl;
  scripts = refl;
  send_ok = refl;
  added = Output.console text ∷ [];
  trace = refl;
  valid = λ v. record { one_of = v.one_of };
  obeyed = Obeyed-same (view-unseen s (Output.console text) s.sent refl);
  fewer = h;
}

-- The outcome satisfies `Q` where the process goes on, and `F` holds where it ends.
abbrev pub OutcomeOr :
    {A : Type 0} → Type 0 → (A → Session → Type 0) → Result (A × Session) → Type 0
OutcomeOr F Q (ok (a, s)) = Q a s
OutcomeOr F Q (fault e) = F

abbrev pub Outcome : {A : Type 0} → (A → Session → Type 0) → Result (A × Session) → Type 0
Outcome Q r = OutcomeOr (Unit {0}) Q r

pub Outcome-map :
    {A : Type 0} (P Q : A → Session → Type 0)
    → ((a : A) (s : Session) → P a s → Q a s)
    → (r : Result (A × Session)) → Outcome P r
    → Outcome Q r
Outcome-map P Q f (ok (a, s)) h = f a s h
Outcome-map P Q f (fault e) h = tt

pub Outcome-bind :
    {A B : Type 0} (P : A → Session → Type 0) (Q : B → Session → Type 0) (r : Result (A × Session))
    (f : A → M B)
    → Outcome P r
    → ((a : A) (s : Session) → P a s → Outcome Q (f a s))
    → Outcome Q (elim r [ ok (a, s') ↦ f a s' | fault e ↦ fault e ])
Outcome-bind P Q (ok (a, s)) f h k = k a s h
Outcome-bind P Q (fault e) f h k = tt

Outcome-Keeps :
    {A : Type 0} (os : List Order) (s : Session) (r : Result (A × Session))
    → SteadyResult os s r
    → Outcome (λ _ t. Steady os s t) r
Outcome-Keeps os s (ok (a, t)) h = h
Outcome-Keeps os s (fault e) h = tt

-- A steady action ends in a steady state.
pub Keeps-Outcome :
    {A : Type 0} {os : List Order} (m : M A) (s : Session)
    → Keeps os m
    → Outcome (λ _ t. Steady os s t) (m s)
Keeps-Outcome {os} m s k = Outcome-Keeps os s (m s) (k.at s)
