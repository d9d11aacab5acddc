-- ===== src/Session/Parser/Ends.antt =====
-- Where the command loop of `commandParser` (open-ldb/LuaDebugger.cpp) ends.
use lua_eclipse_ide.Base.{
  ℕ, zero, suc, ◌<◌, List, Option, none, some, Bool, false, length, arith, ◌≡◌, sym, ◌∙◌, ◌⊎◌, inl,
  inr,
}
use lua_eclipse_ide.Fault.{Result, ok, fault}
use lua_eclipse_ide.LuaView.{LuaState, Activation}
use lua_eclipse_ide.Session.Orders.{Order}
use lua_eclipse_ide.Session.Keeps.{Steady}
use lua_eclipse_ide.Session.{Session, ldb}
use lua_eclipse_ide.Session.Parser.Moves.{Moves, Moves-trans, Moves-Steady, Outcome, Keeps-Outcome}
use lua_eclipse_ide.Session.Parser.{
  Round, again, finished, round, parser_loop, banner, loop_from, command_parser,
}
use lua_eclipse_ide.Session.Parser.Rounds.{IsStuck, Rounded, round-Rounded, banner-Keeps}

-- The loop ends, by leaving or by a fault, or it is at the prompt; where it leaves, the state has
-- moved on as a round does.
abbrev pub Ends : Session → Option (Result Session) → Type 0
Ends s none = s.kind ≡ ldb
Ends s (some (ok t)) = Moves s t
Ends s (some (fault e)) = Unit {0}

pub Ends-Moves : {s t : Session} (r : Option (Result Session)) → Moves s t → Ends t r → Ends s r
Ends-Moves none m h = sym m.kind ∙ h
Ends-Moves (some (ok u)) m h = Moves-trans m h
Ends-Moves (some (fault e)) m h = tt

after_round-Ends :
    (s : Session) (r : Result (Round × Session)) (next : Bool → Session → Option (Result Session))
    → Outcome (Rounded s) r
    → ((e : Bool) (t : Session)
        → t.kind ≡ s.kind
        → (length t.inputs < length s.inputs) ⊎ IsStuck s
        → Ends t (next e t))
    → Ends s (elim r [
      | fault e ↦ some (fault e)
      | ok (q, t) ↦ elim q [ again e ↦ next e t | finished ↦ some (ok t) ]
    ])
after_round-Ends s (fault e) next h k = tt
after_round-Ends s (ok (again e, t)) next h k = Ends-Moves (next e t) h.0 (k e t h.0.kind h.1)
after_round-Ends s (ok (finished, t)) next h k = h

enough_later :
    (f : ℕ) (s t : Session)
    → t.kind ≡ s.kind
    → (length t.inputs < length s.inputs) ⊎ IsStuck s
    → (length s.inputs < suc f) ⊎ (s.kind ≡ ldb)
    → (length t.inputs < f) ⊎ (t.kind ≡ ldb)
enough_later f s t same (inl fewer) (inl h) = inl (omega arith)
enough_later f s t same (inr stuck) h = inr (same ∙ stuck.0)
enough_later f s t same (inl fewer) (inr h) = inr (same ∙ h)

-- With more fuel than there are inputs the loop ends, or it is at the prompt.
pub parser_loop-Ends :
    (f : ℕ) (l : LuaState) (ar : Activation) (ended : Bool) (s : Session)
    → (length s.inputs < f) ⊎ (s.kind ≡ ldb)
    → Ends s (parser_loop f l ar ended s)
unfolding parser_loop
parser_loop-Ends zero l ar ended s (inl h) = elim h [ ]
parser_loop-Ends zero l ar ended s (inr h) = h
parser_loop-Ends (suc f) l ar ended s h =
    after_round-Ends s (round l ar ended s) (parser_loop f l ar) (round-Rounded l ar ended s)
      (λ e t same fewer. parser_loop-Ends f l ar e t (enough_later f s t same fewer h))

loop_from-Ends :
    (os : List Order) (l : LuaState) (ar : Activation) (s : Session)
    (r : Result (Unit {0} × Session))
    → Outcome (λ _ t. Steady os s t) r
    → Ends s (loop_from l ar r)
loop_from-Ends os l ar s (fault e) h = tt
loop_from-Ends os l ar s (ok (_, t)) h =
    Ends-Moves (loop_from l ar (ok (tt, t))) (Moves-Steady h)
      (parser_loop-Ends (suc (length t.inputs)) l ar false t (inl (omega arith)))

pub command_parser-Ends :
    (l : LuaState) (ar : Activation) (s : Session) → Ends s (command_parser l ar s)
unfolding command_parser
command_parser-Ends l ar s =
    loop_from-Ends _ l ar s (banner s) (Keeps-Outcome banner s banner-Keeps)
