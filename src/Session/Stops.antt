-- ===== src/Session/Stops.antt =====
-- Where a script stops: the hook and the commands `break`, `clear` and `continue` together.
use lua_eclipse_ide.Base.{
  ℕ, ◌+◌, ◌≤◌, ◌<◌, ◌==◌, Bytes, ◌++◌, codes, List, [], ◌∷◌, Option, none, some, Bool, true, false,
  if◌then◌else◌, ℤ, pos, ◌≡◌, ◌≢◌, refl, ◌∙◌, arith, eq_bytes, eq_int, eq_bytes_refl, eq_int_refl,
  ap, ◌&&◌, sym, append_assoc,
}
use lua_eclipse_ide.Fault.{ok}
use lua_eclipse_ide.Text.{show_nat, max_int, cut_at, contains, strtok}
use lua_eclipse_ide.Text.Print.{atoi-show_nat, contains-show_nat, show_nat-ne-nil}
use lua_eclipse_ide.Text.Tokens.{
  strtok-append, strtok_only, cut_at-append, cut_at_without, contains-append,
}
use lua_eclipse_ide.Breakpoints.{
  Breakpoints, at_breakpoint, get_breakpoint_list, set_breakpoint_list, clear_breakpoint,
}
use lua_eclipse_ide.Breakpoints.Laws.{
  hits, at_breakpoint-hits, hits-set_breakpoint_list, hits-clear_breakpoint, clear_breakpoint-none,
}
use lua_eclipse_ide.LuaView.{LuaState, Activation}
use lua_eclipse_ide.Command.{classify}
use lua_eclipse_ide.Session.{
  Session, ◌>>=◌, pure, lift, print, send, at_prompt_or_ide, store_breakpoints, continuing,
}
use lua_eclipse_ide.Session.Execute.{
  execute, run_set_break, set_break_at, run_clear_break, clear_break_at, cleared, next_word,
  atoi_of,
}
use lua_eclipse_ide.Session.Parser.{run_line}
use lua_eclipse_ide.Session.Hook.{hook_routine, run_hooks, then_parse, announce_breakpoint}

-- No line of the run is one that the script has a breakpoint at.
abbrev pub PassesBy : Breakpoints → List (LuaState × Activation) → Type 0
PassesBy all [] = Unit {0}
PassesBy all ((l, ar) ∷ calls) =
    (at_breakpoint ar.current_line (all ar.source) ≡ false) × PassesBy all calls

hook_routine_passes :
    (l : LuaState) (ar : Activation) (s : Session)
    → s.state ≡ continuing
    → at_breakpoint ar.current_line (s.breakpoints ar.source) ≡ false
    → hook_routine l ar s ≡ some (ok s)
unfolding hook_routine get_breakpoint_list
hook_routine_passes l ar s c h = ground arith

-- A script that is continuing runs undisturbed while its lines have no breakpoint: nothing is read,
-- nothing is printed or sent, and no part of the state changes.
run_hooks_undisturbed :
    (calls : List (LuaState × Activation)) (s : Session)
    → s.state ≡ continuing
    → PassesBy s.breakpoints calls
    → run_hooks calls s ≡ some (ok s)
unfolding run_hooks
run_hooks_undisturbed [] s c h = refl
run_hooks_undisturbed ((l, ar) ∷ calls) s c h =
    rw (hook_routine_passes l ar s c h.0) (run_hooks_undisturbed calls s c h.1)

-- A line of a command and a number, as the environment sends it.
abbrev pub number_line : Bytes → ℕ → Bytes
number_line word n = word ++ b' ' ∷ (show_nat n ++ b'\n' ∷ [])

contains-number :
    (word : Bytes) (n c : ℕ)
    → contains c word ≡ false
    → (b' ' == c) ≡ false
    → contains c (show_nat n) ≡ false
    → contains c (word ++ b' ' ∷ show_nat n) ≡ false
unfolding contains
contains-number word n c h b k = ground (arith, contains-append c word (b' ' ∷ show_nat n))

-- What the parser makes of such a line: the word, and the number for the next call of `strtok`.
words_of_line :
    (word : Bytes) (n : ℕ)
    → word ≢ []
    → contains b' ' word ≡ false
    → contains b'\n' word ≡ false
    → contains 13 word ≡ false
    → strtok (cut_at 13 (cut_at b'\n' (number_line word n))) ≡ some (word, show_nat n)
words_of_line word n ne blank newline return =
    let body : Bytes = word ++ b' ' ∷ show_nat n in
    ap (λ (t : Bytes). strtok (cut_at 13 (cut_at b'\n' t)))
      (sym (append_assoc word (b' ' ∷ show_nat n) (b'\n' ∷ [])))
    ∙ ap (λ (t : Bytes). strtok (cut_at 13 t))
        (cut_at-append b'\n' body []
          (contains-number word n b'\n' newline refl (contains-show_nat b'\n' n refl)))
    ∙ ap strtok (
        cut_at_without 13 body
          (contains-number word n 13 return refl (contains-show_nat 13 n refl)))
    ∙ strtok-append word (show_nat n) ne blank

atoi_of-show_nat : (n : ℕ) → n ≤ max_int → atoi_of (next_word (show_nat n)).0 ≡ ok (pos n)
unfolding atoi_of next_word
atoi_of-show_nat n h =
    rw (strtok_only (show_nat n) (show_nat-ne-nil n) (contains-show_nat b' ' n refl))
      (rw (atoi-show_nat n h))

not_zero : (n : ℕ) → 0 < n → eq_int (pos n) (pos 0) ≡ false
unfolding eq_int
not_zero n h = ground arith

set_break_number :
    (n : ℕ) (ar : Activation) (s : Session)
    → 0 < n
    → n ≤ max_int
    → run_set_break ar (show_nat n) s ≡ (set_break_at ar (pos n) >>= λ _. pure true) s
set_break_number n ar s p h =
    unfold run_set_break ◌>>=◌ in rw (atoi_of-show_nat n h, lift) (rw (not_zero n p))

clear_break_number :
    (n : ℕ) (ar : Activation) (s : Session)
    → 0 < n
    → n ≤ max_int
    → run_clear_break ar (show_nat n) s ≡ (clear_break_at ar (pos n) >>= λ _. pure true) s
clear_break_number n ar s p h =
    unfold run_clear_break ◌>>=◌ in rw (atoi_of-show_nat n h, lift) (rw (not_zero n p))

run_line-break :
    (n : ℕ) (l : LuaState) (ar : Activation) (s : Session)
    → 0 < n
    → n ≤ max_int
    → run_line l ar (number_line (codes "break") n) s
      ≡ (set_break_at ar (pos n) >>= λ _. pure true) s
unfolding run_line execute classify contains
run_line-break n l ar s p h =
    rw (words_of_line (codes "break") n (ground arith) refl refl refl) (set_break_number n ar s p h)

run_line-clear :
    (n : ℕ) (l : LuaState) (ar : Activation) (s : Session)
    → 0 < n
    → n ≤ max_int
    → run_line l ar (number_line (codes "clear") n) s
      ≡ (clear_break_at ar (pos n) >>= λ _. pure true) s
unfolding run_line execute classify contains
run_line-clear n l ar s p h =
    rw (words_of_line (codes "clear") n (ground arith) refl refl refl)
      (clear_break_number n ar s p h)

set_break_at_breakpoints :
    (line : ℤ) (ar : Activation) (s t : Session) (b : Bool)
    → (set_break_at ar line >>= λ _. pure true) s ≡ ok (b, t)
    → (t.breakpoints ≡ set_breakpoint_list s.breakpoints ar.source line)
      × (t.state ≡ s.state)
      × (b ≡ true)
unfolding set_break_at ◌>>=◌ store_breakpoints at_prompt_or_ide print send
set_break_at_breakpoints line ar s t b h = ground arith

-- After the line "break N" the current script has one more breakpoint at line N; its other lines and
-- all other scripts have the breakpoints that they had, the state is the same, and the parser asks
-- for another command.
pub break_line_lem :
    (n : ℕ) (l : LuaState) (ar : Activation) (s t : Session) (b : Bool) (other : Bytes) (at : ℤ)
    → 0 < n
    → n ≤ max_int
    → run_line l ar (number_line (codes "break") n) s ≡ ok (b, t)
    → (hits at (t.breakpoints other)
        ≡ hits at (s.breakpoints other)
          + (if eq_bytes ar.source other then if eq_int (pos n) at then 1 else 0 else 0))
      × (t.state ≡ s.state)
      × (b ≡ true)
break_line_lem n l ar s t b other at p h e =
    let (set, state, more) =
      set_break_at_breakpoints (pos n) ar s t b (sym (run_line-break n l ar s p h) ∙ e) in
    (rw set (hits-set_breakpoint_list s.breakpoints ar.source other (pos n) at), state, more)

-- The breakpoints once the search has found `found`.
abbrev or_same : Breakpoints → Option Breakpoints → Breakpoints
or_same all none = all
or_same all (some breakpoints) = breakpoints

cleared_breakpoints :
    (line : ℤ) (ar : Activation) (s t : Session) (b : Bool) (found : Option Breakpoints)
    → (cleared ar line found >>= λ _. pure true) s ≡ ok (b, t)
    → t.breakpoints ≡ or_same s.breakpoints found
unfolding ◌>>=◌ store_breakpoints at_prompt_or_ide print send
cleared_breakpoints line ar s t b none h = ground arith
cleared_breakpoints line ar s t b (some breakpoints) h = ground arith

clear_break_at_breakpoints :
    (line : ℤ) (ar : Activation) (s t : Session) (b : Bool)
    → (clear_break_at ar line >>= λ _. pure true) s ≡ ok (b, t)
    → t.breakpoints ≡ or_same s.breakpoints (clear_breakpoint s.breakpoints ar.source line)
unfolding clear_break_at ◌>>=◌
clear_break_at_breakpoints line ar s t b h =
    cleared_breakpoints line ar s t b (clear_breakpoint s.breakpoints ar.source line) h

hits-or_same :
    (all : Breakpoints) (script other : Bytes) (line at : ℤ) (found : Option Breakpoints)
    → clear_breakpoint all script line ≡ found
    → hits at (all other)
      ≡ hits at (or_same all found other)
        + (if at_breakpoint line (all script) && (eq_bytes script other && eq_int line at)
            then 1
            else 0)
hits-or_same all script other line at none e = ground (arith, clear_breakpoint-none all script line)
hits-or_same all script other line at (some rest) e =
    ground (
      arith,
      clear_breakpoint-none all script line,
      hits-clear_breakpoint all script other line at e,
    )

-- After the line "clear N" the current script has one breakpoint less at line N, if it had one; its
-- other lines and all other scripts have the breakpoints that they had.
pub clear_line_lem :
    (n : ℕ) (l : LuaState) (ar : Activation) (s t : Session) (b : Bool) (other : Bytes) (at : ℤ)
    → 0 < n
    → n ≤ max_int
    → run_line l ar (number_line (codes "clear") n) s ≡ ok (b, t)
    → hits at (s.breakpoints other)
      ≡ hits at (t.breakpoints other)
        + (if at_breakpoint (pos n) (s.breakpoints ar.source)
              && (eq_bytes ar.source other && eq_int (pos n) at)
            then 1
            else 0)
clear_line_lem n l ar s t b other at p h e =
    rw (clear_break_at_breakpoints (pos n) ar s t b (sym (run_line-clear n l ar s p h) ∙ e)) (
      hits-or_same s.breakpoints ar.source other (pos n) at
        (clear_breakpoint s.breakpoints ar.source (pos n)) refl)

has_new_breakpoint :
    (n : ℕ) (l : LuaState) (ar : Activation) (s t : Session) (b : Bool)
    → 0 < n
    → n ≤ max_int
    → run_line l ar (number_line (codes "break") n) s ≡ ok (b, t)
    → at_breakpoint (pos n) (t.breakpoints ar.source) ≡ true
has_new_breakpoint n l ar s t b p h e = ground (
  arith,
  (break_line_lem n l ar s t b ar.source (pos n) p h e).0,
  eq_bytes_refl ar.source,
  eq_int_refl (pos n),
  at_breakpoint-hits (pos n) (t.breakpoints ar.source),
)

-- In a session that has the breakpoints which the line "break N" leaves and is continuing, the hook
-- stops at line N of that script: it announces the breakpoint and runs the parser.
pub stops_at_new_breakpoint :
    (n : ℕ) (l l' : LuaState) (ar ar' : Activation) (s t u : Session) (b : Bool)
    → 0 < n
    → n ≤ max_int
    → run_line l ar (number_line (codes "break") n) s ≡ ok (b, t)
    → u.breakpoints ≡ t.breakpoints
    → u.state ≡ continuing
    → ar'.is_line_event ≡ true
    → ar'.source ≡ ar.source
    → ar'.current_line ≡ pos n
    → hook_routine l' ar' u ≡ then_parse l' ar' (announce_breakpoint ar' u)
unfolding hook_routine get_breakpoint_list
stops_at_new_breakpoint n l l' ar ar' s t u b p h e same c line source at =
    let there : at_breakpoint ar'.current_line (u.breakpoints ar'.source) ≡ true =
      rw (at, source, same) (has_new_breakpoint n l ar s t b p h e) in
    ground arith
