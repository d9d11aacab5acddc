-- ===== src/Session/Parser/Works.antt =====
-- Lines that the command loop runs to its end, without a fault (`commandParser` of
-- open-ldb/LuaDebugger.cpp).
use lua_eclipse_ide.Base.{
  ℕ, zero, suc, ◌<◌, Bytes, List, [], ◌∷◌, Option, none, some, Bool, true, false, not, ◌≡◌, ◌∙◌,
  refl, length, arith,
}
use lua_eclipse_ide.Fault.{Result, ok, fault}
use lua_eclipse_ide.Source.{SourceLines}
use lua_eclipse_ide.LuaView.{LuaState, Activation}
use lua_eclipse_ide.Command.{classify}
use lua_eclipse_ide.Session.Orders.{Debugger, obey, obey_all}
use lua_eclipse_ide.Session.Dialogue.{
  Dialogue, arrival, line_words, line_orders, line_resumes, follow,
}
use lua_eclipse_ide.Session.Keeps.{Steady}
use lua_eclipse_ide.Session.Works.{
  SendsWell, SendsWell-same, Worked, Works, works_rules, Works-bind, Works-pure,
}
use lua_eclipse_ide.Session.Execute.Works.{Runs, execute-Works}
use lua_eclipse_ide.Session.Parser.Moves.{
  Moves, Moves-Steady, OutcomeOr, Outcome, Outcome-map, Keeps-Outcome,
}
use lua_eclipse_ide.Session.Parser.Rounds.{Rounded, round-Rounded, banner-Keeps}
use lua_eclipse_ide.Session.Parser.Follows.{
  Agrees, Agrees-Steady, LandsOr, after_round-LandsOr, round-Agrees, round_empty-Agrees,
}
use lua_eclipse_ide.Session.Parser.Delivered.{Delivered-length}
use lua_eclipse_ide.Session.Parser.Taken.{without_lines, round_of-Delivered}
use lua_eclipse_ide.Session.{Session, DebuggerType, ldb, ide, ◌>>=◌, print}
use lua_eclipse_ide.Session.Parser.{
  Round, again, finished, next_round, receive_command, run_words, run_line, run_text, round_of,
  round, parser_loop, banner, loop_from, command_parser,
}

abbrev pub RunsWords : LuaState → Option (Bytes × Bytes) → Type 0
RunsWords l none = ⊥
RunsWords l (some (cmd, rest)) = Runs l (classify cmd) rest

-- An empty line runs, a line of blanks does not.
abbrev pub RunsLine : LuaState → Bytes → Type 0
RunsLine l [] = Unit {0}
RunsLine l (c ∷ line) = RunsWords l (line_words (c ∷ line))

-- At the prompt some line has to let the script go on; over the sockets the end of the lines does.
abbrev pub MayEnd : DebuggerType → Type 0
MayEnd ldb = ⊥
MayEnd ide = Unit {0}

-- The lines run, up to the first that lets the script go on.
abbrev pub AllRun : DebuggerType → LuaState → List Bytes → Type 0
AllRun kind l [] = MayEnd kind
AllRun kind l (line ∷ lines) = RunsLine l line × (line_resumes line ≡ false → AllRun kind l lines)

run_words-Works :
    {scripts : SourceLines} (l : LuaState) (ar : Activation) (words : Option (Bytes × Bytes))
    → RunsWords l words
    → Works scripts (run_words l ar words)
run_words-Works l ar none h = absurd h
run_words-Works l ar (some (cmd, rest)) h = execute-Works l ar (classify cmd) cmd rest h

run_text-Works :
    {scripts : SourceLines} (l : LuaState) (ar : Activation) (ended : Bool) (line : Bytes)
    → RunsLine l line
    → Works scripts (run_text l ar ended line true)
unfolding run_line
run_text-Works l ar ended [] h = Works-pure (again ended)
run_text-Works l ar ended (c ∷ line) h =
    Works-bind _ _ (run_words-Works l ar (line_words (c ∷ line)) h) (λ more. Works-pure _)

-- A session that agrees with a debugger without details, and can go on.
pub record Ready (kind : DebuggerType) (scripts : SourceLines) (a : Dialogue) (s : Session)
    : Type 0 where
  pub agrees : Agrees a s
  pub sends : SendsWell scripts s
  pub same_kind : s.kind ≡ kind

pub Ready-Moves :
    {kind : DebuggerType} {scripts : SourceLines} {a b : Dialogue} {s t : Session}
    → Ready kind scripts a s
    → Moves s t
    → Agrees b t
    → Ready kind scripts b t
Ready-Moves h m g = record {
  agrees = g;
  sends = SendsWell-same m.send_ok m.scripts h.sends;
  same_kind = m.kind ∙ h.same_kind;
}

Rounded-Moves : (s : Session) (q : Round) (t : Session) → Rounded s q t → Moves s t
Rounded-Moves s (again ended) t h = h.0
Rounded-Moves s finished t h = h

banner-Works : {scripts : SourceLines} → Works scripts banner
banner-Works = search works_rules depth 7

without_lines-MayEnd :
    (kind : DebuggerType) (ended : Bool) → MayEnd kind → without_lines kind ended ≡ finished
without_lines-MayEnd ldb ended h = absurd h
without_lines-MayEnd ide ended h = refl

module _ (kind : DebuggerType) (scripts : SourceLines) (l : LuaState) (ar : Activation) where
  -- What is known of a round apart is known of it together.
  round_together :
      {a : Dialogue} (b : Dialogue) {s : Session} (r : Result (Round × Session)) (next : Round)
      → Ready kind scripts a s
      → Worked scripts r
      → Outcome (Rounded s) r
      → Outcome (λ q t. (q ≡ next) × Agrees b t) r
      → OutcomeOr ⊥ (λ q t. (q ≡ next) × Ready kind scripts b t) r
  round_together b (fault e) next h w m g = absurd w
  round_together b {s = s} (ok (q, t)) next h w m g =
      (g.0, Ready-Moves h (Rounded-Moves s q t m) g.1)

  round-Works :
      (ended : Bool) (line : Bytes) (lines : List Bytes) (s : Session) (d : Debugger)
      → Ready kind scripts (record { debugger = d; lines = line ∷ lines }) s
      → RunsLine l line
      → Worked scripts (round l ar ended s)
  unfolding round
  round-Works ended line lines s d h runs =
      let (u, e, reads) = round_of-Delivered s.kind l ar ended s line lines h.agrees.left in
      rw e (
        (run_text-Works l ar ended line runs).at u
          (SendsWell-same reads.send_ok reads.scripts h.sends))

  empty_round :
      (ended : Bool) (s : Session) (k : DebuggerType)
      → s.inputs ≡ []
      → SendsWell scripts s
      → MayEnd k
      → Worked scripts (round_of k l ar ended s)
  unfolding ◌>>=◌ print receive_command
  empty_round ended s ldb h sends m = absurd m
  empty_round ended s ide h sends m = rw h (record { each = sends.each; listed = sends.listed })

  parser_loop-Ready :
      (f : ℕ) (ended : Bool) (lines : List Bytes) (s : Session) (d : Debugger)
      → length lines < f
      → Ready kind scripts (record { debugger = d; lines = lines }) s
      → AllRun kind l lines
      → LandsOr ⊥ (Ready kind scripts (follow ar.source d lines)) (parser_loop f l ar ended s)
  unfolding parser_loop
  parser_loop-Ready zero ended lines s d n h runs = elim n [ ]
  parser_loop-Ready (suc f) ended [] s d n h runs =
      let here : Dialogue = record { debugger = d; lines = [] } in
      after_round-LandsOr ⊥ (Ready kind scripts) here here true ended (round l ar ended s)
        (parser_loop f l ar)
        (round_together _ (round l ar ended s) finished h
          (unfold round in empty_round ended s s.kind h.agrees.left h.sends (rw h.same_kind runs))
          (round-Rounded l ar ended s)
          (Outcome-map (λ q t. (q ≡ without_lines s.kind ended) × Agrees here t) _
            (λ q t g. (g.0 ∙ without_lines-MayEnd s.kind ended (rw h.same_kind runs), g.1))
            (round l ar ended s) (round_empty-Agrees l ar ended s d h.agrees)))
        (λ more t k. absurd (cc more))
  parser_loop-Ready (suc f) ended (line ∷ lines) s d n h runs =
      let e = obey_all (line_orders ar.source line) d in
      after_round-LandsOr ⊥ (Ready kind scripts) (record { debugger = e; lines = lines })
        (follow ar.source e lines) (line_resumes line) ended (round l ar ended s)
        (parser_loop f l ar)
        (round_together _ (round l ar ended s) (next_round (not (line_resumes line)) ended) h
          (round-Works ended line lines s d h runs.0) (round-Rounded l ar ended s)
          (round-Agrees l ar ended line lines s d h.agrees))
        (λ more t k. parser_loop-Ready f ended lines t e (omega arith) k (runs.1 more))

  loop_from-Ready :
      (d : Debugger) (lines : List Bytes) (s : Session) (r : Result (Unit {0} × Session))
      → Ready kind scripts (record { debugger = d; lines = lines }) s
      → AllRun kind l lines
      → Worked scripts r
      → Outcome (λ _ t. Steady (arrival ∷ []) s t) r
      → LandsOr ⊥ (Ready kind scripts (follow ar.source (obey arrival d) lines)) (loop_from l ar r)
  loop_from-Ready d lines s (fault e) h runs w k = absurd w
  loop_from-Ready d lines s (ok (_, t)) h runs w k =
      let there = Ready-Moves h (Moves-Steady k) (Agrees-Steady k h.agrees) in
      parser_loop-Ready (suc (length t.inputs)) false lines t (obey arrival d)
        (Delivered-length lines t.kind t.inputs there.agrees.left) there runs

  pub command_parser-Ready :
      (d : Debugger) (lines : List Bytes) (s : Session)
      → Ready kind scripts (record { debugger = d; lines = lines }) s
      → AllRun kind l lines
      → LandsOr ⊥
          (Ready kind scripts (follow ar.source (obey arrival d) lines))
          (command_parser l ar s)
  unfolding command_parser
  command_parser-Ready d lines s h runs =
      loop_from-Ready d lines s (banner s) h runs (banner-Works.at s h.sends)
        (Keeps-Outcome banner s banner-Keeps)
