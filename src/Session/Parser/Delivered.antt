-- ===== src/Session/Parser/Delivered.antt =====
-- How the lines of commands come to `commandParser` of open-ldb/LuaDebugger.cpp: typed, or in pieces
-- over the command socket.
use lua_eclipse_ide.Base.{
  ℕ, zero, suc, ◌<◌, Bytes, List, [], ◌∷◌, ◌++◌, Option, some, true, false, ◌≡◌, ◌≢◌, refl, ap, map,
  length, arith,
}
use lua_eclipse_ide.Text.{contains}
use lua_eclipse_ide.Session.{DebuggerType, ldb, ide}

-- The pieces behind `text`, put together.
abbrev pub joined : Bytes → List Bytes → Bytes
joined text [] = text
joined text (piece ∷ pieces) = joined (text ++ piece) pieces

-- At most `n` more pieces without a zero byte, the last of which brings the newline.
abbrev pub Completes : ℕ → Bytes → List Bytes → Type 0
Completes n text [] = contains b'\n' text ≡ true
Completes zero text (piece ∷ pieces) = ⊥
Completes (suc n) text (piece ∷ pieces) =
    (contains b'\n' text ≡ false) × (contains 0 piece ≡ false) × Completes n (text ++ piece) pieces

-- A line in pieces over the command socket: the first is not empty, five more may follow, and the
-- whole fits the buffer.
pub record InPieces (line : Bytes) (inputs rest : List (Option Bytes)) : Type 0 where
  pub first : Bytes
  pub more : List Bytes
  pub not_empty : first ≢ []
  pub no_zero : contains 0 first ≡ false
  pub completes : Completes 5 first more
  pub whole : line ≡ joined first more
  pub short : length line < 159
  pub comes : inputs ≡ some first ∷ (map some more ++ rest)

not_nothing : (line : Bytes) → contains b'\n' line ≡ true → line ≢ []
unfolding contains
not_nothing [] h = cc
not_nothing (c ∷ line) h = λ e. cc

pub in_one_piece :
    (line : Bytes) (rest : List (Option Bytes))
    → length line < 159
    → contains 0 line ≡ false
    → contains b'\n' line ≡ true
    → InPieces line (some line ∷ rest) rest
in_one_piece line rest short no_zero newline = record {
  first = line;
  more = [];
  not_empty = not_nothing line newline;
  no_zero = no_zero;
  completes = newline;
  whole = refl;
  short = short;
  comes = refl;
}

-- A line at the prompt.
pub record Typed (line : Bytes) (inputs rest : List (Option Bytes)) : Type 0 where
  pub short : length line < 160
  pub comes : inputs ≡ some line ∷ rest

abbrev pub Comes : DebuggerType → Bytes → List (Option Bytes) → List (Option Bytes) → Type 0
Comes ldb line inputs rest = Typed line inputs rest
Comes ide line inputs rest = InPieces line inputs rest

-- The inputs are these lines, and nothing more.
abbrev pub Delivered : List Bytes → DebuggerType → List (Option Bytes) → Type 0
Delivered [] kind inputs = inputs ≡ []
Delivered (line ∷ lines) kind inputs =
    (rest : List (Option Bytes)) × Comes kind line inputs rest × Delivered lines kind rest

-- Lines that come in one piece each.
abbrev pub AllWhole : List Bytes → Type 0
AllWhole [] = Unit {0}
AllWhole (line ∷ lines) =
    ((length line < 159) × (contains 0 line ≡ false) × (contains b'\n' line ≡ true))
    × AllWhole lines

pub AllWhole-Delivered :
    (lines : List Bytes) → AllWhole lines → Delivered lines ide (map some lines)
AllWhole-Delivered [] h = refl
AllWhole-Delivered (line ∷ lines) h = (
  map some lines,
  in_one_piece line (map some lines) h.0.0 h.0.1 h.0.2,
  AllWhole-Delivered lines h.1,
)

length-append : (a b : List (Option Bytes)) → length b < suc (length (a ++ b))
length-append [] b = omega arith
length-append (x ∷ a) b = omega (arith, length-append a b)

Comes-length :
    (kind : DebuggerType) (line : Bytes) (inputs rest : List (Option Bytes))
    → Comes kind line inputs rest
    → length rest < length inputs
Comes-length ldb line inputs rest h = omega (arith, ap length h.comes)
Comes-length ide line inputs rest h =
    omega (arith, ap length h.comes, length-append (map some h.more) rest)

-- There are no more lines than inputs.
pub Delivered-length :
    (lines : List Bytes) (kind : DebuggerType) (inputs : List (Option Bytes))
    → Delivered lines kind inputs
    → length lines < suc (length inputs)
Delivered-length [] kind inputs h = omega arith
Delivered-length (line ∷ lines) kind inputs (rest, comes, later) =
    omega (arith, Comes-length kind line inputs rest comes, Delivered-length lines kind rest later)
