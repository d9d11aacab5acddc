-- ===== src/Session/Parser/Rounds.antt =====
-- Each round of the command loop that asks for another one has taken an input, unless there was none
-- at the prompt.
use lua_eclipse_ide.Base.{
  ℕ, ◌≤◌, ◌<◌, ◌+◌, Bytes, ◌++◌, codes, List, [], ◌∷◌, Option, none, some, Bool, true, false, ◌≡◌,
  refl, sym, ◌∙◌, ap, length, arith, Bool-cases, ◌⊎◌, inl, inr, ltb,
}
use lua_eclipse_ide.Fault.{Result, ok, fault}
use lua_eclipse_ide.Text.{strtok, cut_at}
use lua_eclipse_ide.LuaView.{LuaState, Activation, c_str}
use lua_eclipse_ide.Command.{classify}
use lua_eclipse_ide.Session.Orders.{Order}
use lua_eclipse_ide.Session.Dialogue.{words_orders, line_orders, arrival}
use lua_eclipse_ide.Session.Keeps.{
  Steady, Keeps, keeps_rules, Keeps-print, Keeps-pure, Keeps-then, Keeps-tell_ide, Keeps-send-event,
  Keeps-bind_first,
}
use lua_eclipse_ide.Session.Execute.Steady.{execute-Keeps}
use lua_eclipse_ide.Session.{Session, DebuggerType, ldb, ide, M, ◌>>=◌, pure, lift, print}
use lua_eclipse_ide.Session.Parser.Moves.{
  Moves, Moves-trans, Moves-Steady, Moves-inputs, Moves-printed, Outcome, Outcome-bind, Outcome-map,
  Keeps-Outcome,
}
use lua_eclipse_ide.Session.Parser.{
  Reading, command_text, no_command, exception, gather, gathered, first_piece, receive,
  receive_command, type_line, Round, again, finished, run_words, run_line, run_text, next_round,
  fill_line, after_reading, round_of, round, banner,
}

gather_fewer :
    (inputs : List (Option Bytes)) (count : ℕ) (text : Bytes)
    → length (gather count text inputs).1 ≤ length inputs
unfolding gather
gather_fewer [] count text = ground arith
gather_fewer (none ∷ inputs) count text = ground arith
gather_fewer (some piece ∷ inputs) count text =
    ground (arith, gather_fewer inputs (count + 1) (text ++ c_str piece))

-- What reading a command does: unless it ends in the exception, an input is taken.
abbrev Read : Session → Reading → Session → Type 0
Read s exception t = Moves s t
Read s (command_text text keep_going) t = Moves s t × (length t.inputs < length s.inputs)
Read s no_command t = Moves s t × (length t.inputs < length s.inputs)

-- What the loop over the pieces leaves: fewer inputs, unless it ends in the exception.
abbrev Leaves : Session → Reading × List (Option Bytes) → Type 0
Leaves s (exception, inputs) = length inputs ≤ length s.inputs
Leaves s (command_text text keep_going, inputs) = length inputs < length s.inputs
Leaves s (no_command, inputs) = length inputs < length s.inputs

Leaves-lt :
    (s : Session) (g : Reading × List (Option Bytes)) → length g.1 < length s.inputs → Leaves s g
Leaves-lt s (exception, inputs) h = omega arith
Leaves-lt s (command_text text keep_going, inputs) h = h
Leaves-lt s (no_command, inputs) h = h

gathered-Read :
    (s : Session) (g : Reading × List (Option Bytes)) → Leaves s g → Outcome (Read s) (gathered g s)
unfolding ◌>>=◌ print
gathered-Read s (exception, inputs) h = Moves-printed s inputs _ h
gathered-Read s (command_text text true, inputs) h = (Moves-inputs s inputs (omega arith), h)
gathered-Read s (command_text text false, inputs) h = (Moves-printed s inputs _ (omega arith), h)
gathered-Read s (no_command, inputs) h = (Moves-inputs s inputs (omega arith), h)

first_piece-Read :
    (text : Bytes) (inputs : List (Option Bytes)) (s : Session)
    → length inputs < length s.inputs
    → Outcome (Read s) (first_piece text inputs s)
unfolding ◌>>=◌ print
first_piece-Read [] inputs s h = (Moves-printed s inputs _ (omega arith), h)
first_piece-Read (c ∷ text) inputs s h =
    gathered-Read s (gather 0 (c ∷ text) inputs)
      (Leaves-lt s (gather 0 (c ∷ text) inputs) (omega (arith, gather_fewer inputs 0 (c ∷ text))))

receive-Read :
    (inputs : List (Option Bytes)) (s : Session)
    → s.inputs ≡ inputs
    → Outcome (Read s) (receive inputs s)
receive-Read [] s e = gathered-Read s (exception, []) (omega arith)
receive-Read (none ∷ inputs) s e = gathered-Read s (exception, inputs) (omega (arith, ap length e))
receive-Read (some piece ∷ inputs) s e =
    first_piece-Read (c_str piece) inputs s (omega (arith, ap length e))

type_line-Moves :
    (input : Option Bytes) (inputs : List (Option Bytes)) (s : Session)
    → s.inputs ≡ input ∷ inputs
    → Outcome
        (λ _ t. Moves s t × (length t.inputs < length s.inputs))
        (type_line (input ∷ inputs) s)
type_line-Moves none inputs s e = (Moves-inputs s [] (omega arith), omega (arith, ap length e))
type_line-Moves (some text) inputs s e = elim (Bool-cases (ltb (length text) 160)) [
  | inl room ↦
      rw room (Moves-inputs s inputs (omega (arith, ap length e)), omega (arith, ap length e))
  | inr long ↦ rw long (Moves-inputs s [] (omega arith), omega (arith, ap length e))
]

run_words-Keeps :
    (l : LuaState) (ar : Activation) (words : Option (Bytes × Bytes))
    → Keeps (words_orders ar.source words) (run_words l ar words)
run_words-Keeps l ar none = search keeps_rules
run_words-Keeps l ar (some (cmd, rest)) = execute-Keeps l ar (classify cmd) cmd rest

run_line-Keeps :
    (l : LuaState) (ar : Activation) (line : Bytes)
    → Keeps (line_orders ar.source line) (run_line l ar line)
unfolding run_line
run_line-Keeps l ar line = run_words-Keeps l ar (strtok (cut_at 13 (cut_at b'\n' line)))

pub run_text-Keeps :
    (l : LuaState) (ar : Activation) (ended : Bool) (line : Bytes) (keep_going : Bool)
    → Keeps (line_orders ar.source line) (run_text l ar ended line keep_going)
unfolding strtok cut_at
run_text-Keeps l ar ended [] keep_going = Keeps-pure (next_round keep_going ended)
run_text-Keeps l ar ended (c ∷ line) keep_going =
    Keeps-bind_first _ _ (run_line-Keeps l ar (c ∷ line)) (λ more. Keeps-pure _)

-- At the prompt, with no input left.
abbrev pub IsStuck : Session → Type 0
IsStuck s = (s.kind ≡ ldb) × (s.inputs ≡ [])

-- A round that asks for another has taken an input, or there was none at the prompt.
abbrev pub Rounded : Session → Round → Session → Type 0
Rounded s (again ended) t = Moves s t × ((length t.inputs < length s.inputs) ⊎ IsStuck s)
Rounded s finished t = Moves s t

Rounded-Steady :
    {os : List Order} {s t : Session} (r : Round) (u : Session)
    → Moves s t
    → length t.inputs < length s.inputs
    → Steady os t u
    → Rounded s r u
Rounded-Steady (again ended) u m h k =
    (Moves-trans m (Moves-Steady k), inl (omega (arith, ap length k.inputs)))
Rounded-Steady finished u m h k = Moves-trans m (Moves-Steady k)

Keeps-Rounded :
    {os : List Order} (m : M Round) (s t : Session)
    → Keeps os m
    → Moves s t
    → length t.inputs < length s.inputs
    → Outcome (Rounded s) (m t)
Keeps-Rounded {os} m s t k p h =
    Outcome-map (λ _ u. Steady os t u) (Rounded s) (λ r u q. Rounded-Steady r u p h q) (m t)
      (Keeps-Outcome m t k)

filled-Rounded :
    (l : LuaState) (ar : Activation) (keep_going : Bool) (s t : Session)
    (filled : Result (Bytes × Bool))
    → Moves s t
    → length t.inputs < length s.inputs
    → Outcome (Rounded s) ((lift filled >>= λ line. run_text l ar line.1 line.0 keep_going) t)
unfolding ◌>>=◌ lift
filled-Rounded l ar keep_going s t (fault e) m h = tt
filled-Rounded l ar keep_going s t (ok (line, ended)) m h =
    Keeps-Rounded (run_text l ar ended line keep_going) s t
      (run_text-Keeps l ar ended line keep_going) m h

after_reading-Rounded :
    (l : LuaState) (ar : Activation) (ended : Bool) (s : Session) (r : Reading) (t : Session)
    → Read s r t
    → Outcome (Rounded s) (after_reading l ar ended r t)
unfolding ◌>>=◌
after_reading-Rounded l ar ended s exception t h = h
after_reading-Rounded l ar ended s no_command t h = (h.0, inl h.1)
after_reading-Rounded l ar ended s (command_text text keep_going) t h =
    filled-Rounded l ar keep_going s t (fill_line text ended) h.0 h.1

type_then_run :
    (l : LuaState) (ar : Activation) (ended : Bool) (s t : Session) (inputs : List (Option Bytes))
    → s.kind ≡ ldb
    → t.inputs ≡ inputs
    → Steady [] s t
    → Outcome (Rounded s) (elim (type_line inputs t) [
      | ok (line, u) ↦ run_text l ar ended line true u
      | fault e ↦ fault e
    ])
unfolding pure
type_then_run l ar ended s t [] at_prompt e k = (Moves-Steady k, inr (at_prompt, sym k.inputs ∙ e))
type_then_run l ar ended s t (input ∷ inputs) at_prompt e k =
    Outcome-bind (λ _ u. Moves t u × (length u.inputs < length t.inputs)) (Rounded s)
      (type_line (input ∷ inputs) t) (λ line. run_text l ar ended line true)
      (type_line-Moves input inputs t e)
      (λ line u h.
        Keeps-Rounded (run_text l ar ended line true) s u (run_text-Keeps l ar ended line true)
          (Moves-trans (Moves-Steady k) h.0) (omega (arith, ap length k.inputs, h.1)))

round_of-Rounded :
    (k : DebuggerType) (l : LuaState) (ar : Activation) (ended : Bool) (s : Session)
    → s.kind ≡ k
    → Outcome (Rounded s) (round_of k l ar ended s)
round_of-Rounded ldb l ar ended s e =
    unfold print ◌>>=◌ in
    type_then_run l ar ended s _ s.inputs e refl ((Keeps-print (codes "ldb> ")).at s)
round_of-Rounded ide l ar ended s e =
    unfold receive_command ◌>>=◌ in
    Outcome-bind (Read s) (Rounded s) (receive s.inputs s) (after_reading l ar ended)
      (receive-Read s.inputs s refl) (after_reading-Rounded l ar ended s)

pub round-Rounded :
    (l : LuaState) (ar : Activation) (ended : Bool) (s : Session)
    → Outcome (Rounded s) (round l ar ended s)
unfolding round
round-Rounded l ar ended s = round_of-Rounded s.kind l ar ended s refl

pub banner-Keeps : Keeps (arrival ∷ []) banner
banner-Keeps =
    Keeps-tell_ide _ _ _ (Keeps-pure tt)
      (Keeps-then _ _ (Keeps-send-event _) (λ _. Keeps-send-event _))
