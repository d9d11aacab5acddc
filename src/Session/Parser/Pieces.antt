-- ===== src/Session/Parser/Pieces.antt =====
-- A command that comes in more pieces than `commandParser` of open-ldb/LuaDebugger.cpp waits for.
use lua_eclipse_ide.Base.{
  ℕ, zero, suc, ◌+◌, ◌++◌, Bytes, List, [], ◌∷◌, Option, some, true, false, ◌≡◌, ◌≢◌, refl, map,
  leb, arith,
}
use lua_eclipse_ide.Fault.{ok}
use lua_eclipse_ide.Text.{contains}
use lua_eclipse_ide.Text.Tokens.{cut_at_without}
use lua_eclipse_ide.LuaView.{c_str}
use lua_eclipse_ide.Session.{Session, ◌>>=◌, print, pure}
use lua_eclipse_ide.Session.Parser.{command_text, gather, first_piece, receive, receive_command}
use lua_eclipse_ide.Session.Parser.Delivered.{joined}
use lua_eclipse_ide.Session.Parser.Taken.{five_not}

-- So many more pieces without a zero byte, none of which but the last brings the newline.
abbrev pub Missing : ℕ → Bytes → List Bytes → Type 0
Missing zero text [] = Unit {0}
Missing (suc n) text [] = ⊥
Missing zero text (piece ∷ pieces) = ⊥
Missing (suc n) text (piece ∷ pieces) =
    (contains b'\n' text ≡ false) × (contains 0 piece ≡ false) × Missing n (text ++ piece) pieces

five_reached : (count : ℕ) → count + 0 ≡ 5 → leb 5 count ≡ true
five_reached count e = ground arith

gather-Missing :
    (pieces : List Bytes) (n count : ℕ) (text : Bytes) (rest : List (Option Bytes))
    → count + n ≡ 5
    → Missing (suc n) text pieces
    → gather count text (map some pieces ++ rest) ≡ (command_text (joined text pieces) false, rest)
unfolding gather c_str
gather-Missing [] n count text rest e h = absurd h
gather-Missing (piece ∷ []) zero count text rest e h =
    rw (h.0, five_reached count e, c_str, cut_at_without 0 piece h.1) refl
gather-Missing (piece ∷ next ∷ pieces) zero count text rest e h = absurd h.2
gather-Missing (piece ∷ pieces) (suc n) count text rest e h =
    rw (h.0, five_not n count e, c_str, cut_at_without 0 piece h.1)
      (gather-Missing pieces n (count + 1) (text ++ piece) rest (omega arith) h.2)

first_piece-Missing :
    (text : Bytes) (pieces : List Bytes) (rest : List (Option Bytes)) (s : Session)
    → text ≢ []
    → Missing 6 text pieces
    → (t : Session) × (first_piece text (map some pieces ++ rest) s
        ≡ ok (command_text (joined text pieces) false, t))
      × (t.inputs ≡ rest)
unfolding ◌>>=◌ print pure
first_piece-Missing [] pieces rest s ne h = absurd (ne refl)
first_piece-Missing (c ∷ text) pieces rest s ne h =
    rw (gather-Missing pieces 5 0 (c ∷ text) rest (omega arith) h) (_, refl, refl)

receive-Missing :
    (got : List (Option Bytes)) (first : Bytes) (more : List Bytes) (rest : List (Option Bytes))
    (s : Session)
    → first ≢ []
    → contains 0 first ≡ false
    → Missing 6 first more
    → got ≡ some first ∷ (map some more ++ rest)
    → (t : Session) × (receive got s ≡ ok (command_text (joined first more) false, t))
      × (t.inputs ≡ rest)
unfolding c_str
receive-Missing got first more rest s ne no_zero h e =
    rw (e, c_str, cut_at_without 0 first no_zero) (first_piece-Missing first more rest s ne h)

-- If six pieces have come over the command socket without a newline, the first of them not empty, a
-- seventh is taken and no more, whatever it brings: the command is all seven put together, and the
-- loop over commands is not to go on after it.
pub receive_command_seven_pieces :
    (first : Bytes) (more : List Bytes) (rest : List (Option Bytes)) (s : Session)
    → first ≢ []
    → contains 0 first ≡ false
    → Missing 6 first more
    → s.inputs ≡ some first ∷ (map some more ++ rest)
    → (t : Session) × (receive_command s ≡ ok (command_text (joined first more) false, t))
      × (t.inputs ≡ rest)
unfolding receive_command
receive_command_seven_pieces first more rest s ne no_zero h e =
    receive-Missing s.inputs first more rest s ne no_zero h e
