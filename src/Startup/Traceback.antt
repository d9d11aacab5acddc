-- ===== src/Startup/Traceback.antt =====
-- The report of an error (`errormessage` and `OutputTop` of open-ldb/LuaDebugger.cpp), and
-- `whereAmI` and `listvars`, which no command calls.
use lua_eclipse_ide.Base.{
  ℕ, zero, suc, ◌+◌, ◌-◌, ◌≤◌, ◌<◌, Bool, true, false, Option, none, some, List, [], ◌∷◌, ◌++◌, ◌≡◌,
  refl, map, Bytes, length, ltb, ◌==◌, not, ◌&&◌, if◌then◌else◌, codes, ℤ, pos, ltb_int, arith,
  split_if, Bool-cases, inl, inr, ge→ltb,
}
use lua_eclipse_ide.Fault.{Result, ok, fault, bad_format, sprintf, ◌>>=◌}
use lua_eclipse_ide.Text.{show_nat, show_int}
use lua_eclipse_ide.LuaView.{LuaValue, number, string, Frame, LuaState, get_stack, at_index, c_str}

abbrev pub levels1 : ℕ
levels1 = 12

abbrev pub levels2 : ℕ
levels2 = 10

-- What the loop of `errormessage` pushes: a level, or the line of dots.
pub data TraceItem : Type 0 where
  at_level : ℕ → TraceItem
  dots : TraceItem

-- `n` is the number of levels, so that `lua_getstack(L, k, &ar)` succeeds for the `k` below it.
-- The inner loop moves on while ten levels further there is one.
unfoldable pub last_levels : ℕ → ℕ → ℕ → ℕ
last_levels zero n level = level
last_levels (suc fuel) n level =
    let further = last_levels fuel n (level + 1) in
    if ltb (level + levels2) n then further else level

-- `level` is what `lua_getstack` is called with; the body uses `level + 1`, the value after `++`.
unfoldable pub trace_loop : ℕ → ℕ → ℕ → Bool → List TraceItem
trace_loop zero n level first_part = []
trace_loop (suc fuel) n level first_part =
    let keep_going = trace_loop fuel n level false in
    let skip_to = trace_loop fuel n (last_levels n n (level + 1)) false in
    let next = trace_loop fuel n (level + 1) first_part in
    if not (ltb level n)
    then []
    else if ltb levels1 (level + 1) && first_part
    then if ltb (level + 1 + levels2) n then dots ∷ skip_to else keep_going
    else at_level level ∷ next

-- The loop goes round once for every level and twice more.
abbrev pub trace_items : ℕ → List TraceItem
trace_items n = trace_loop (n + 2) n 1 true

abbrev pub or_empty : Option Bytes → Bytes
or_empty none = []
or_empty (some s) = s

abbrev first_char : Bytes → ℕ
first_char [] = 0
first_char (c ∷ s) = c

-- The switch on `*namewhat` for a global, a local, a field or a method.
abbrev has_name : ℕ → Bool
has_name c =
    if c == b'g' then true else if c == b'l' then true else if c == b'f' then true else c == b'm'

-- How a function is described, with the text that stands for its source.
unfoldable pub function_text : Bytes → Frame → Bytes
function_text source f =
    if has_name (first_char (or_empty f.name_what))
    then codes " in function `" ++ (or_empty f.name ++ codes "'")
    else if first_char (or_empty f.what) == b'm'
    then codes " in main chunk"
    else if first_char (or_empty f.what) == b'C'
    then source
    else codes " in function <" ++ (source ++ (codes ":" ++ (show_int f.line_defined ++ codes ">")))

abbrev pad4 : Bytes → Bytes
pad4 (a ∷ []) = codes "   " ++ a ∷ []
pad4 (a ∷ b ∷ []) = codes "  " ++ a ∷ b ∷ []
pad4 (a ∷ b ∷ c ∷ []) = codes " " ++ a ∷ b ∷ c ∷ []
pad4 s = s

abbrev line_part : ℤ → Bytes
line_part line = if ltb_int (pos 0) line then show_int line ++ codes ":" else []

-- A line of the traceback; the level is written to a buffer of 10 bytes.
abbrev level_text : ℕ → Option Frame → Result Bytes
level_text k none = ok []
level_text k (some f) = sprintf 10 (pad4 (show_nat k) ++ codes "-  ") >>= λ number. ok (
    number
    ++ (f.short_src
        ++ (codes ":"
            ++ (line_part f.current_line ++ (function_text f.short_src f ++ codes "\n")))))

abbrev item_text : LuaState → TraceItem → Result Bytes
item_text l dots = ok (codes "       ...\n")
item_text l (at_level k) = level_text k (get_stack l (pos k))

unfoldable pub trace_text : LuaState → List TraceItem → Result Bytes
trace_text l [] = ok []
trace_text l (i ∷ items) = item_text l i >>= λ s. trace_text l items >>= λ rest. ok (s ++ rest)

-- `printf(text)`: `%%` is a percent sign; any other conversion reads an argument that is not there.
unfoldable pub print_format : Bytes → Result Bytes
print_format [] = ok []
print_format (c ∷ []) = if c == b'%' then fault bad_format else ok (c ∷ [])
print_format (c ∷ d ∷ s) =
    let escaped = print_format s >>= λ rest. ok (c ∷ rest) in
    let plain = print_format (d ∷ s) >>= λ rest. ok (c ∷ rest) in
    if c == b'%' then if d == b'%' then escaped else fault bad_format else plain

unfoldable pub output_top : Bytes → Result Bytes
output_top text = print_format (c_str text) >>= λ s. ok (s ++ codes "\n")

abbrev message_of : Option LuaValue → Option Bytes
message_of (some (number t)) = some t
message_of (some (string s)) = some s
message_of _ = none

abbrev report : LuaState → Option Bytes → Result (Option Bytes)
report l none = ok none
report l (some message) = trace_text l (trace_items (length l.frames)) >>= λ trace.
    output_top (message ++ (codes "\nstack traceback:\n" ++ trace)) >>= λ s. ok (some s)

-- `none`: nothing is printed, since no string or number stands at index 1.
unfoldable pub errormessage : LuaState → Result (Option Bytes)
errormessage l = report l (message_of (at_index l.stack 1))

unfoldable pub where_am_i : Frame → Bytes
where_am_i f = function_text f.source f ++ codes "\n"

abbrev numbered_names : Bytes → ℕ → List Bytes → Bytes
numbered_names kind i [] = []
numbered_names kind i (name ∷ names) =
    kind
    ++ (show_nat i ++ (codes " " ++ (name ++ (codes "\n" ++ numbered_names kind (i + 1) names))))

abbrev list_frame : Option Frame → List Bytes → Option Bytes
list_frame none upvalues = none
list_frame (some f) upvalues = some (
    numbered_names (codes "local ") 1 (map (λ (v : Bytes × LuaValue). v.0) f.locals)
    ++ numbered_names (codes "upvalue ") 1 upvalues)

-- `upvalues` are the names that `lua_getupvalue` gives for the function; `none` is the result 0.
unfoldable pub listvars : LuaState → ℤ → List Bytes → Option Bytes
listvars l level upvalues = list_frame (get_stack l level) upvalues

-- Which levels are shown.
abbrev pub levels_from : ℕ → ℕ → List TraceItem
levels_from zero level = []
levels_from (suc count) level = at_level level ∷ levels_from count (level + 1)

last_levels-lem :
    (fuel n level : ℕ) → level + 10 ≤ n → n ≤ level + 10 + fuel → last_levels fuel n level ≡ n - 10
unfolding last_levels
last_levels-lem zero n level low high = omega arith
last_levels-lem (suc fuel) n level low high =
    split_if (λ r. r ≡ n - 10) (ltb (level + 10) n) _ level
      (λ e. last_levels-lem fuel n (level + 1) (ground (arith, e)) (omega arith))
      λ e. ground (arith, e, low)

step_levels :
    (n level : ℕ)
    → level < n
    → at_level level ∷ levels_from (n - (level + 1)) (level + 1) ≡ levels_from (n - level) level
step_levels n level h = let more : n - level ≡ suc (n - (level + 1)) = omega arith in rw more refl

trace_loop-false :
    (fuel n level : ℕ)
    → n < level + fuel
    → trace_loop fuel n level false ≡ levels_from (n - level) level
unfolding trace_loop
trace_loop-false zero n level h = let over : n - level ≡ 0 = omega arith in rw over
trace_loop-false (suc fuel) n level h =
    let P = λ (items : List TraceItem). items ≡ levels_from (n - level) level in
    split_if P (not (ltb level n)) [] _
      (λ e. let over : n - level ≡ 0 = ground (arith, e) in rw over)
      λ e.
        split_if P (ltb levels1 (level + 1) && false) _
          (at_level level ∷ trace_loop fuel n (level + 1) false) (λ e'. absurd (ground (arith, e')))
          λ e'.
            rw (trace_loop-false fuel n (level + 1) (omega arith))
              (step_levels n level (ground (arith, e)))

abbrev pub shown_from : ℕ → ℕ → List TraceItem
shown_from n level =
    if ltb 23 n
    then levels_from (12 - level) level ++ dots ∷ levels_from 10 (n - 10)
    else levels_from (n - level) level

shown_from-end : (n level : ℕ) → level ≤ 12 → n ≤ level → [] ≡ shown_from n level
shown_from-end n level low h =
    let over : n - level ≡ 0 = omega arith in
    let few : ltb 23 n ≡ false = ge→ltb 23 n (omega arith) in rw (few, over)

step_shown_from :
    (n level : ℕ)
    → level < 12
    → level < n
    → at_level level ∷ shown_from n (level + 1) ≡ shown_from n level
step_shown_from n level low h =
    let more : 12 - level ≡ suc (12 - (level + 1)) = omega arith in
    elim (Bool-cases (ltb 23 n)) [
      | inl e ↦ rw (e, more) refl
      | inr e ↦ rw e (step_levels n level h)
    ]

-- At level 12 the loop looks whether more than ten levels follow.
first_part_ends :
    (fuel n level : ℕ)
    → level ≡ 12
    → n + 1 < level + suc fuel
    → level < n
    → (if ltb (level + 1 + levels2) n
        then dots ∷ trace_loop fuel n (last_levels n n (level + 1)) false
        else trace_loop fuel n level false)
      ≡ shown_from n level
first_part_ends fuel n level here h more =
    let at_12 : n - 12 ≡ n - level = omega arith in
    elim (Bool-cases (ltb 23 n)) [
      | inl e ↦
          let last : last_levels n n 13 ≡ n - 10 =
            last_levels-lem n n 13 (ground (arith, e)) (omega arith) in
          let ten : n - (n - 10) ≡ 10 = ground (arith, e) in
          rw (here, e, last, trace_loop-false fuel n (n - 10) (ground (arith, e, h, here)), ten)
            refl
      | inr e ↦ rw (here, e, trace_loop-false fuel n 12 (omega (arith, h, here))) refl
    ]

trace_loop-true :
    (fuel n level : ℕ)
    → level ≤ 12
    → n + 1 < level + fuel
    → trace_loop fuel n level true ≡ shown_from n level
unfolding trace_loop
trace_loop-true zero n level low h =
    let over : n - level ≡ 0 = omega arith in
    let few : ltb 23 n ≡ false = ge→ltb 23 n (omega arith) in rw (few, over)
trace_loop-true (suc fuel) n level low h =
    let P = λ (items : List TraceItem). items ≡ shown_from n level in
    split_if P (not (ltb level n)) [] _ (λ e. shown_from-end n level low (ground (arith, e)))
      λ e.
        split_if P (ltb levels1 (level + 1) && true) _
          (at_level level ∷ trace_loop fuel n (level + 1) true)
          (λ e'. first_part_ends fuel n level (ground (arith, e', low)) h (ground (arith, e)))
          λ e'.
            rw (trace_loop-true fuel n (level + 1) (ground (arith, e')) (omega arith))
              (step_shown_from n level (ground (arith, e')) (ground (arith, e)))

-- With at most 23 levels all but the first, which is the reporting function, are shown; with more,
-- the levels 1 to 11, a line of dots, and the last ten.
pub trace_items_lem : (n : ℕ) → trace_items n ≡ shown_from n 1
trace_items_lem n = trace_loop-true (n + 2) n 1 (omega arith) (omega arith)
