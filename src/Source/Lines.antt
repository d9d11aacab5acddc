-- ===== src/Source/Lines.antt =====
-- Source texts as lists of lines, and what reading one should add to a script's list.
use lua_eclipse_ide.Base.{
  ℕ, zero, suc, ◌+◌, ◌<◌, false, some, List, [], ◌∷◌, ◌++◌, Bytes, ◌≡◌, ◌≢◌, refl, sym, ◌∙◌, arith,
  length, get_elem?, append-nil, append_assoc, pos,
}
use lua_eclipse_ide.Fault.{ok}
use lua_eclipse_ide.ScriptMap.{assign_self, assign_ne}
use lua_eclipse_ide.Text.{contains}
use lua_eclipse_ide.Source.{SourceLines, set_line_source_list, numbered, max_line, get_file_line}

-- The text with these lines, each ended by a newline.
abbrev pub render : List Bytes → Bytes
render [] = []
render (l ∷ ls) = l ++ b'\n' ∷ render ls

-- The lines with their numbers, from `n` on.
abbrev pub number_from : ℕ → List Bytes → List Bytes
number_from n [] = []
number_from n (l ∷ ls) = numbered n l ∷ number_from (n + 1) ls

-- No line holds a newline, and each fits the buffer with its number before it.
abbrev pub Fits : ℕ → List Bytes → Type 0
Fits n [] = Unit {0}
Fits n (l ∷ ls) = (contains b'\n' l ≡ false) × (length (numbered n l) < max_line) × Fits (n + 1) ls

abbrev pub add_lines : SourceLines → Bytes → List Bytes → SourceLines
add_lines all name [] = all
add_lines all name (l ∷ ls) = add_lines (set_line_source_list all name l) name ls

-- The lines stand behind those that the script had.
pub add_lines_self :
    (ls : List Bytes) (all : SourceLines) (name : Bytes)
    → add_lines all name ls name ≡ all name ++ ls
unfolding set_line_source_list
add_lines_self [] all name = sym (append-nil (all name))
add_lines_self (l ∷ ls) all name =
    add_lines_self ls (set_line_source_list all name l) name
    ∙ rw (assign_self all name (all name ++ l ∷ [])) (append_assoc (all name) (l ∷ []) ls)

pub add_lines_ne :
    (ls : List Bytes) (all : SourceLines) (name other : Bytes)
    → name ≢ other
    → add_lines all name ls other ≡ all other
unfolding set_line_source_list
add_lines_ne [] all name other h = refl
add_lines_ne (l ∷ ls) all name other h =
    add_lines_ne ls (set_line_source_list all name l) name other h
    ∙ assign_ne all name other (all name ++ l ∷ []) h

get_elem?-number_from :
    (ls : List Bytes) (n i : ℕ) {l : Bytes}
    → get_elem? ls i ≡ some l
    → get_elem? (number_from n ls) i ≡ some (numbered (n + i) l)
get_elem?-number_from [] n i h = cc
get_elem?-number_from (x ∷ ls) n zero h = ground arith
get_elem?-number_from (x ∷ ls) n (suc i) h = ground (arith, get_elem?-number_from ls (n + 1) i h)

-- In a script with nothing listed before, `getFileLine` gives the numbered line back.
pub get_file_line-add_lines :
    (ls : List Bytes) (all : SourceLines) (name : Bytes) (i : ℕ) {l : Bytes}
    → all name ≡ []
    → get_elem? ls i ≡ some l
    → get_file_line (add_lines all name (number_from 1 ls)) name (pos (suc i))
      ≡ ok (numbered (suc i) l)
unfolding get_file_line
get_file_line-add_lines [] all name i e h = cc
get_file_line-add_lines (x ∷ ls) all name i e h =
    rw (add_lines_self (number_from 1 (x ∷ ls)) all name)
      (rw e (ground (arith, get_elem?-number_from (x ∷ ls) 1 i h)))
