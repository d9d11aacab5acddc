-- ===== src/Session/Execute/Listing.antt =====
-- The command `list` of `commandParser` (open-ldb/LuaDebugger.cpp) stays inside the listing, whatever
-- the last line that it is given.
use lua_eclipse_ide.Base.{
  get_elem?_below, ℕ, zero, suc, ◌+◌, ◌≤◌, ◌<◌, Bytes, List, [], ◌∷◌, Option, none, some, Bool,
  true, false, if◌then◌else◌, ℤ, pos, negsuc, ◌+ℤ◌, ltb_int, eq_int, pos_part, length, Bool-cases,
  inl, inr, ◌≡◌, refl, arith,
}
use lua_eclipse_ide.Fault.{ok}
use lua_eclipse_ide.Text.{atoi, max_int}
use lua_eclipse_ide.LuaView.{Activation}
use lua_eclipse_ide.Source.{SourceLines, get_file_line, line_in}
use lua_eclipse_ide.Session.Works.{
  Works, works_rules, Works-bind, Works-pure, Works-if, Works-print, Works-gets_listed,
  Works-lift_then,
}
use lua_eclipse_ide.Session.Execute.{
  next_word, first_line, last_line, default_last_line, given_last_line, list_line, list_lines,
  list_range, rounds, run_list,
}

-- A number, if there is a word.
abbrev pub GivenNumber : Option Bytes → Type 0
GivenNumber none = Unit {0}
GivenNumber (some w) = (n : ℤ) × (atoi w ≡ some n)

-- A first line that is not negative, so that five more are still an `int`, and a number after it
-- or nothing.
abbrev pub ListArguments : Bytes → Type 0
ListArguments rest =
    (first : ℕ) × (first_line (next_word rest).0 ≡ ok (pos first))
    × (first + 5 ≤ max_int)
    × GivenNumber (next_word (next_word rest).1).0

pos_add : (a b : ℕ) → pos a +ℤ pos b ≡ pos (a + b)
pos_add a b = ground arith

pos_next : (i : ℕ) → pos (suc i) +ℤ pos 1 ≡ pos (suc (suc i))
pos_next i = ground arith

listed :
    (scripts : SourceLines) (script : Bytes) (i : ℕ)
    → i < length (scripts script)
    → (text : Bytes) × (get_file_line scripts script (pos (suc i)) ≡ ok text)
unfolding get_file_line
listed scripts script i h = in_list (scripts script) h
  where
    in_list :
        (list : List Bytes)
        → i < length list
        → (text : Bytes) × (line_in list (pos (suc i)) ≡ ok text)
    in_list [] h = absurd (omega arith)
    in_list (x ∷ list) h = let (text, e) = get_elem?_below i (x ∷ list) h in (text, rw e refl)

-- The last line stands in the listing, or before it.
abbrev InListing : ℕ → Option ℤ → Type 0
InListing lines none = Unit {0}
InListing lines (some last) = pos_part last ≤ lines

some-InListing :
    (lines : ℕ) (last : ℤ) (b : Bool)
    → pos_part last ≤ lines
    → InListing lines (if b then none else some last)
some-InListing lines last true h = tt
some-InListing lines last false h = h

not_behind : (lines : ℕ) (last : ℤ) → ltb_int (pos lines) last ≡ false → pos_part last ≤ lines
not_behind lines (pos n) h = ground arith
not_behind lines (negsuc n) h = omega arith

given_last_line-InListing : (lines : ℕ) (last : ℤ) → InListing lines (given_last_line lines last)
given_last_line-InListing lines last = elim (Bool-cases (ltb_int (pos lines) last)) [
  | inl e ↦ rw e (omega arith)
  | inr e ↦ rw e (some-InListing lines last (eq_int last (pos 0)) (not_behind lines last e))
]

smaller :
    (a lines : ℕ) → pos_part (if ltb_int (pos a) (pos lines) then pos a else pos lines) ≤ lines
smaller a lines = ground arith

no_overflow : (a : ℕ) → a ≤ max_int → ltb_int (pos max_int) (pos a) ≡ false
no_overflow a h = ground arith

last_line-InListing :
    (first lines : ℕ) (w : Option Bytes)
    → first + 5 ≤ max_int
    → GivenNumber w
    → (r : Option ℤ) × (last_line (pos first) lines w ≡ ok r) × InListing lines r
last_line-InListing first lines none h g =
    rw (default_last_line, pos_add first 5, no_overflow (first + 5) h)
      (_, refl, smaller (first + 5) lines)
last_line-InListing first lines (some w) h (n, e) =
    (given_last_line lines n, rw e refl, given_last_line-InListing lines n)

module _ {scripts : SourceLines} (ar : Activation) where
  list_line-Works :
      (i : ℕ) → i < length (scripts ar.source) → Works scripts (list_line ar (pos (suc i)))
  unfolding list_line
  list_line-Works i h =
      let (text, e) = listed scripts ar.source i h in
      Works-gets_listed (λ all. all) _ (Works-lift_then text _ _ e (search works_rules))

  list_lines-Works :
      (n i : ℕ)
      → (0 < n → i + n ≤ length (scripts ar.source))
      → Works scripts (list_lines ar (pos (suc i)) n)
  unfolding list_lines
  list_lines-Works zero i h = Works-pure tt
  list_lines-Works (suc n) i h =
      let fits : i + suc n ≤ length (scripts ar.source) = h (omega arith) in
      Works-bind _ _ (list_line-Works i (omega arith))
        (λ _. rw (pos_next i) (list_lines-Works n (suc i) (λ more. omega arith)))

  list_range-Works :
      (i : ℕ) (r : Option ℤ)
      → InListing (length (scripts ar.source)) r
      → Works scripts (list_range ar (pos (suc i)) r)
  list_range-Works i none h = Works-print _
  list_range-Works i (some last) h =
      list_lines-Works (rounds (pos (suc i)) last) i (λ more. omega arith)

  pub run_list-Works : (rest : Bytes) → ListArguments rest → Works scripts (run_list ar rest)
  unfolding run_list eq_int
  run_list-Works rest (zero, e, fits, g) =
      Works-gets_listed (λ all. length (all ar.source)) _
        (Works-lift_then (pos 0) _ _ e (Works-bind _ _ (Works-print _) (λ _. Works-pure true)))
  run_list-Works rest (suc i, e, fits, g) =
      let (r, e', inside) = last_line-InListing (suc i) (length (scripts ar.source)) _ fits g in
      Works-gets_listed (λ all. length (all ar.source)) _
        (Works-lift_then (pos (suc i)) _ _ e (
          Works-bind _ _
            (Works-if (eq_int (pos (suc i)) (pos 0)) _ _ (Works-print _)
              (Works-lift_then r _ _ e' (list_range-Works i r inside)))
            (λ _. Works-pure true)))
