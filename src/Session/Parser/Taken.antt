-- ===== src/Session/Parser/Taken.antt =====
-- The command loop reads each line that is delivered whole (`commandParser` of
-- open-ldb/LuaDebugger.cpp).
use lua_eclipse_ide.Base.{
  ℕ, zero, suc, ◌+◌, ◌<◌, Bytes, codes, List, [], ◌∷◌, ◌++◌, Option, none, some, Bool, true, false,
  ◌≡◌, ◌≢◌, refl, map, length, leb, arith,
}
use lua_eclipse_ide.Fault.{ok}
use lua_eclipse_ide.Text.{contains}
use lua_eclipse_ide.Text.Tokens.{cut_at_without}
use lua_eclipse_ide.LuaView.{LuaState, Activation, c_str}
use lua_eclipse_ide.Session.Orders.{view, view-unseen}
use lua_eclipse_ide.Session.Parser.Moves.{Outcome}
use lua_eclipse_ide.Session.{
  bind_ok, Session, DebuggerType, ldb, ide, ◌>>=◌, ◌>>◌, pure, lift, print, Output,
}
use lua_eclipse_ide.Session.Parser.{
  Round, again, command_text, gather, first_piece, receive, receive_command, type_line, fill_line,
  finished, run_text, after_reading, round_of,
}
use lua_eclipse_ide.Session.Parser.Delivered.{joined, Completes, InPieces, Typed, Comes, Delivered}

-- Reading leaves the debugger as it is, and takes the line.
pub record Reads (from : DebuggerType) (lines : List Bytes) (s u : Session) : Type 0 where
  pub kind : u.kind ≡ s.kind
  pub scripts : u.scripts ≡ s.scripts
  pub send_ok : u.send_ok ≡ s.send_ok
  pub seen : view u ≡ view s
  pub left : Delivered lines from u.inputs

type_line-Typed :
    (typed rest : List (Option Bytes)) (line : Bytes) (t : Session)
    → Typed line typed rest
    → type_line typed t ≡ ok (line, record t { inputs = rest })
type_line-Typed typed rest line t h = rw h.comes (ground (arith, h.short))

pub gather_done :
    (count : ℕ) (text : Bytes) (inputs : List (Option Bytes))
    → contains b'\n' text ≡ true
    → gather count text inputs ≡ (command_text text true, inputs)
unfolding gather
gather_done count text [] h = rw h refl
gather_done count text (none ∷ inputs) h = rw h refl
gather_done count text (some piece ∷ inputs) h = rw h refl

pub five_not : (n count : ℕ) → count + suc n ≡ 5 → leb 5 count ≡ false
five_not n count h = ground arith

-- The pieces are put together, and what comes behind them is left.
gather-Completes :
    (pieces : List Bytes) (n count : ℕ) (text : Bytes) (rest : List (Option Bytes))
    → count + n ≡ 5
    → Completes n text pieces
    → gather count text (map some pieces ++ rest) ≡ (command_text (joined text pieces) true, rest)
unfolding gather c_str
gather-Completes [] n count text rest e h = gather_done count text rest h
gather-Completes (piece ∷ pieces) zero count text rest e h = absurd h
gather-Completes (piece ∷ pieces) (suc n) count text rest e h =
    rw (h.0, five_not n count e, c_str, cut_at_without 0 piece h.1)
      (gather-Completes pieces n (count + 1) (text ++ piece) rest (omega arith) h.2)

first_piece-Completes :
    (text : Bytes) (pieces : List Bytes) (rest : List (Option Bytes)) (s : Session)
    → text ≢ []
    → Completes 5 text pieces
    → first_piece text (map some pieces ++ rest) s
      ≡ ok (command_text (joined text pieces) true, record s { inputs = rest })
first_piece-Completes [] pieces rest s ne h = absurd (ne refl)
first_piece-Completes (c ∷ text) pieces rest s ne h =
    rw (gather-Completes pieces 5 0 (c ∷ text) rest (omega arith) h) refl

receive-InPieces :
    (got rest : List (Option Bytes)) (line : Bytes) (s : Session)
    → InPieces line got rest
    → receive got s ≡ ok (command_text line true, record s { inputs = rest })
unfolding c_str
receive-InPieces got rest line s h =
    rw (h.comes, h.whole, c_str, cut_at_without 0 h.first h.no_zero)
      (first_piece-Completes h.first h.more rest s h.not_empty h.completes)

fill_line_short :
    (line : Bytes) (ended : Bool) → length line < 159 → fill_line line ended ≡ ok (line, ended)
unfolding fill_line
fill_line_short line ended h = ground arith

round_of-Comes :
    (k : DebuggerType) (l : LuaState) (ar : Activation) (ended : Bool) (s : Session) (line : Bytes)
    (rest : List (Option Bytes)) (lines : List Bytes)
    → Comes k line s.inputs rest
    → Delivered lines k rest
    → (u : Session) × (round_of k l ar ended s ≡ run_text l ar ended line true u)
      × Reads k lines s u
round_of-Comes ldb l ar ended s line rest lines h later =
    let t : Session = record s { trace = s.trace ++ Output.console (codes "ldb> ") ∷ [] } in
    (
      record t { inputs = rest },
      bind_ok (print (codes "ldb> ") >> λ u. type_line u.inputs u)
          (λ line. run_text l ar ended line true) s {a = line} {t = record t { inputs = rest }}
          (bind_ok (print (codes "ldb> ")) (λ _ u. type_line u.inputs u) s {a = tt} {t = t}
            (unfold print in refl) (type_line-Typed t.inputs rest line t h))
          refl,
      record {
        kind = refl;
        scripts = refl;
        send_ok = refl;
        seen = view-unseen s (Output.console (codes "ldb> ")) s.sent refl;
        left = later;
      },
    )
round_of-Comes ide l ar ended s line rest lines h later = (
  record s { inputs = rest },
  bind_ok receive_command (after_reading l ar ended) s {a = command_text line true}
      {t = record s { inputs = rest }}
      (unfold receive_command in receive-InPieces s.inputs rest line s h)
      (bind_ok (lift (fill_line line ended)) (λ filled. run_text l ar filled.1 filled.0 true)
        (record s { inputs = rest }) {a = (line, ended)} {t = record s { inputs = rest }}
        (unfold lift in rw (fill_line_short line ended h.short) refl) refl),
  record { kind = refl; scripts = refl; send_ok = refl; seen = refl; left = later },
)

-- A round takes the next line, whole.
pub round_of-Delivered :
    (k : DebuggerType) (l : LuaState) (ar : Activation) (ended : Bool) (s : Session) (line : Bytes)
    (lines : List Bytes)
    → Delivered (line ∷ lines) k s.inputs
    → (u : Session) × (round_of k l ar ended s ≡ run_text l ar ended line true u)
      × Reads k lines s u
round_of-Delivered k l ar ended s line lines (rest, comes, later) =
    round_of-Comes k l ar ended s line rest lines comes later

-- Without lines the prompt goes round once more, and the environment's connection is at its end.
abbrev pub without_lines : DebuggerType → Bool → Round
without_lines ldb ended = again ended
without_lines ide ended = finished

pub round_of_empty :
    (k : DebuggerType) (l : LuaState) (ar : Activation) (ended : Bool) (s : Session)
    → s.inputs ≡ []
    → Outcome (λ q t. (q ≡ without_lines k ended) × Reads k [] s t) (round_of k l ar ended s)
unfolding ◌>>=◌ pure print receive_command
round_of_empty ldb l ar ended s h = rw h (
  refl,
  record {
    kind = refl;
    scripts = refl;
    send_ok = refl;
    seen = view-unseen s (Output.console (codes "ldb> ")) s.sent refl;
    left = refl;
  },
)
round_of_empty ide l ar ended s h = rw h (
  refl,
  record {
    kind = refl;
    scripts = refl;
    send_ok = refl;
    seen = view-unseen s (Output.console (codes "received socket exception\n")) s.sent refl;
    left = refl;
  },
)
