-- ===== src/Session/Parser/Follows.antt =====
-- The command loop follows the lines that it reads, as `Dialogue` has it (`commandParser` of
-- open-ldb/LuaDebugger.cpp).
use lua_eclipse_ide.Base.{
  ℕ, zero, suc, Bytes, List, [], ◌∷◌, Option, none, some, Bool, true, false, not, ◌&&◌,
  if◌then◌else◌, ◌≡◌, refl, ◌∙◌, ap, length,
}
use lua_eclipse_ide.Fault.{Result, ok, fault}
use lua_eclipse_ide.Text.{strtok, cut_at}
use lua_eclipse_ide.LuaView.{LuaState, Activation}
use lua_eclipse_ide.Command.{classify}
use lua_eclipse_ide.Session.Orders.{Debugger, Order, view, obey, obey_all}
use lua_eclipse_ide.Session.Dialogue.{
  Dialogue, arrival, words_resume, line_orders, line_resumes, follow,
}
use lua_eclipse_ide.Session.Keeps.{Steady, SteadyResult}
use lua_eclipse_ide.Session.Execute.Gives.{
  Given, Gives, Gives-pure, Gives-raise, Gives-map, execute-Gives,
}
use lua_eclipse_ide.Session.Parser.Moves.{Keeps-Outcome, OutcomeOr, Outcome, Outcome-map}
use lua_eclipse_ide.Session.Parser.Rounds.{run_text-Keeps, banner-Keeps}
use lua_eclipse_ide.Session.Parser.Delivered.{Delivered}
use lua_eclipse_ide.Session.Parser.Taken.{Reads, without_lines, round_of-Delivered, round_of_empty}
use lua_eclipse_ide.Session.{Session}
use lua_eclipse_ide.Session.Parser.{
  Round, again, finished, next_round, run_words, run_line, run_text, round_of, round, parser_loop,
  banner, loop_from, command_parser,
}

-- The session is where the debugger without details is, with the same lines to come.
pub record Agrees (a : Dialogue) (s : Session) : Type 0 where
  pub seen : view s ≡ a.debugger
  pub left : Delivered a.lines s.kind s.inputs

-- Orders obeyed on both sides.
pub Agrees-Steady :
    {os : List Order} {d : Debugger} {lines : List Bytes} {s t : Session}
    → Steady os s t
    → Agrees (record { debugger = d; lines = lines }) s
    → Agrees (record { debugger = obey_all os d; lines = lines }) t
Agrees-Steady {os} h g = record {
  seen = h.obeyed ∙ ap (obey_all os) g.seen;
  left = rw (h.kind, h.inputs) g.left;
}

run_words-Gives :
    (l : LuaState) (ar : Activation) (words : Option (Bytes × Bytes))
    → Gives (not (words_resume words)) (run_words l ar words)
run_words-Gives l ar none = Gives-raise true _
run_words-Gives l ar (some (cmd, rest)) = execute-Gives l ar (classify cmd) cmd rest

run_text-Gives :
    (l : LuaState) (ar : Activation) (ended : Bool) (line : Bytes)
    → Gives (next_round (not (line_resumes line)) ended) (run_text l ar ended line true)
unfolding strtok cut_at run_line
run_text-Gives l ar ended [] = Gives-pure (again ended)
run_text-Gives l ar ended (c ∷ line) =
    Gives-map _ (λ more. next_round (true && more) ended) (run_words-Gives l ar _)

Given-SteadyResult :
    {A : Type 0} (a : A) (os : List Order) (s : Session) (r : Result (A × Session))
    → Given a r
    → SteadyResult os s r
    → Outcome (λ b t. (b ≡ a) × Steady os s t) r
Given-SteadyResult a os s (ok (b, t)) g k = (g, k)
Given-SteadyResult a os s (fault e) g k = tt

-- Where the loop leaves, `P` holds of the session; where it does not, `F`.
abbrev pub LandsOr : Type 0 → (Session → Type 0) → Option (Result Session) → Type 0
LandsOr F P none = F
LandsOr F P (some (fault e)) = F
LandsOr F P (some (ok t)) = P t

abbrev pub Lands : Dialogue → Option (Result Session) → Type 0
Lands a r = LandsOr (Unit {0}) (Agrees a) r

pub after_round-LandsOr :
    (F : Type 0) (P : Dialogue → Session → Type 0) (leaving later : Dialogue) (resumes ended : Bool)
    (r : Result (Round × Session)) (next : Bool → Session → Option (Result Session))
    → OutcomeOr F (λ q t. (q ≡ next_round (not resumes) ended) × P leaving t) r
    → (resumes ≡ false → (t : Session) → P leaving t → LandsOr F (P later) (next ended t))
    → LandsOr F (P (if resumes then leaving else later)) (elim r [
      | fault e ↦ some (fault e)
      | ok (q, t) ↦ elim q [ again e ↦ next e t | finished ↦ some (ok t) ]
    ])
after_round-LandsOr F P leaving later resumes ended (fault e) next h k = h
after_round-LandsOr F P leaving later true ended (ok (again e, t)) next h k = cc
after_round-LandsOr F P leaving later true ended (ok (finished, t)) next h k = h.1
after_round-LandsOr F P leaving later false ended (ok (again e, t)) next h k =
    let same : e ≡ ended = cc in rw same (k refl t h.1)
after_round-LandsOr F P leaving later false ended (ok (finished, t)) next h k = cc

after_empty-Lands :
    (a : Dialogue) (next : Round) (r : Result (Round × Session))
    (go_on : Bool → Session → Option (Result Session))
    → Outcome (λ q t. (q ≡ next) × Agrees a t) r
    → ((e : Bool) (t : Session) → Agrees a t → Lands a (go_on e t))
    → Lands a (elim r [
      | fault e ↦ some (fault e)
      | ok (q, t) ↦ elim q [ again e ↦ go_on e t | finished ↦ some (ok t) ]
    ])
after_empty-Lands a next (fault e) go_on h k = tt
after_empty-Lands a next (ok (again e, t)) go_on h k = k e t h.1
after_empty-Lands a next (ok (finished, t)) go_on h k = h.1

module _ (l : LuaState) (ar : Activation) where
  -- A round obeys its line.
  pub round-Agrees :
      (ended : Bool) (line : Bytes) (lines : List Bytes) (s : Session) (d : Debugger)
      → Agrees (record { debugger = d; lines = line ∷ lines }) s
      → Outcome
          (λ q t.
            (q ≡ next_round (not (line_resumes line)) ended)
            × Agrees
                (record { debugger = obey_all (line_orders ar.source line) d; lines = lines })
                t)
          (round l ar ended s)
  unfolding round
  round-Agrees ended line lines s d g =
      let (u, e, reads) = round_of-Delivered s.kind l ar ended s line lines g.left in
      let resumes = line_resumes line in
      let orders = line_orders ar.source line in
      rw e (
        Outcome-map (λ q t. (q ≡ next_round (not resumes) ended) × Steady orders u t) _
          (λ q t h. (
            h.0,
            record {
              seen = h.1.obeyed ∙ ap (obey_all orders) (reads.seen ∙ g.seen);
              left = rw (h.1.kind ∙ reads.kind, h.1.inputs) reads.left;
            },
          ))
          (run_text l ar ended line true u)
          (Given-SteadyResult _ orders u _ ((run_text-Gives l ar ended line).at u)
            ((run_text-Keeps l ar ended line true).at u)))

  pub round_empty-Agrees :
      (ended : Bool) (s : Session) (d : Debugger)
      → Agrees (record { debugger = d; lines = [] }) s
      → Outcome
          (λ q t. (q ≡ without_lines s.kind ended) × Agrees (record { debugger = d; lines = [] }) t)
          (round l ar ended s)
  unfolding round
  round_empty-Agrees ended s d g =
      Outcome-map (λ q t. (q ≡ without_lines s.kind ended) × Reads s.kind [] s t) _
        (λ q t h. (h.0, record { seen = h.1.seen ∙ g.seen; left = h.1.left }))
        (round_of s.kind l ar ended s) (round_of_empty s.kind l ar ended s g.left)

  parser_loop-Lands :
      (f : ℕ) (ended : Bool) (lines : List Bytes) (s : Session) (d : Debugger)
      → Agrees (record { debugger = d; lines = lines }) s
      → Lands (follow ar.source d lines) (parser_loop f l ar ended s)
  unfolding parser_loop
  parser_loop-Lands zero ended lines s d g = tt
  parser_loop-Lands (suc f) ended [] s d g =
      after_empty-Lands (record { debugger = d; lines = [] }) (without_lines s.kind ended)
        (round l ar ended s) (parser_loop f l ar) (round_empty-Agrees ended s d g)
        (λ e t h. parser_loop-Lands f e [] t d h)
  parser_loop-Lands (suc f) ended (line ∷ lines) s d g =
      let e = obey_all (line_orders ar.source line) d in
      after_round-LandsOr (Unit {0}) Agrees (record { debugger = e; lines = lines })
        (follow ar.source e lines) (line_resumes line) ended (round l ar ended s)
        (parser_loop f l ar) (round-Agrees ended line lines s d g)
        (λ more t h. parser_loop-Lands f ended lines t e h)

  -- Entering the parser tells the environment that the script has stopped.
  loop_from-Lands :
      (d : Debugger) (lines : List Bytes) (s : Session) (r : Result (Unit {0} × Session))
      → Agrees (record { debugger = d; lines = lines }) s
      → Outcome (λ _ t. Steady (arrival ∷ []) s t) r
      → Lands (follow ar.source (obey arrival d) lines) (loop_from l ar r)
  loop_from-Lands d lines s (fault e) g h = tt
  loop_from-Lands d lines s (ok (_, t)) g h =
      parser_loop-Lands (suc (length t.inputs)) false lines t (obey arrival d) (Agrees-Steady h g)

  pub command_parser-Lands :
      (d : Debugger) (lines : List Bytes) (s : Session)
      → Agrees (record { debugger = d; lines = lines }) s
      → Lands (follow ar.source (obey arrival d) lines) (command_parser l ar s)
  unfolding command_parser
  command_parser-Lands d lines s g =
      loop_from-Lands d lines s (banner s) g (Keeps-Outcome banner s banner-Keeps)
