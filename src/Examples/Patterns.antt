-- ===== src/Examples/Patterns.antt =====
-- Matches at small subjects (open-ldb/lstrlib.c).
use lua_eclipse_ide.Base.{Bytes, false, [], ◌∷◌, some, codes, ◌≡◌, refl, arith}
use lua_eclipse_ide.Lua.Pattern.{
  stopped, tried, finished, ends_with_percent, invalid_pattern_capture,
}
use lua_eclipse_ide.Lua.Pattern.Classes.{
  match_class, in_set, match_bracket_class, bracket_end, class_end, single_match,
}
use lua_eclipse_ide.Lua.Pattern.Match.{
  capture_to_close, balance_loop, match_balance, item_matches, count_items, max_try, max_expand,
  min_expand, start_capture, end_capture, match_switch, match,
}
use lua_eclipse_ide.Lua.Pattern.Sound.{IsSound}
use lua_eclipse_ide.Lua.Pattern.Switch.{match-IsSound}
use lua_eclipse_ide.Lua.Pattern.Find.{
  found, memchr, memcmp, lmemfind_loop, lmemfind, find_pattern, has_specials, find,
}
use lua_eclipse_ide.Lua.Pattern.Plain.{is_plain, all_plain}
use lua_eclipse_ide.Lua.Pattern.Text.{find-find_pattern}

-- `(l+)o` at the third byte of "hello".
match_capture_run :
    match (codes "hello") 6 [] 2 (codes "(l+)o")
    ≡ tried (some 5) (record { init = 2; len = finished 2 } ∷ [])
unfolding match match_switch start_capture end_capture capture_to_close class_end single_match
    item_matches max_expand max_try count_items
match_capture_run = refl

-- `[a-f]-%d` matches as few letters as it can.
match_set_run : match (codes "abc1d2") 9 [] 0 (codes "[a-f]-%d") ≡ tried (some 4) []
unfolding match match_switch class_end bracket_end single_match item_matches min_expand match_class
    match_bracket_class in_set
match_set_run = refl

match_balance_run : match (codes "(a(b)c)d") 5 [] 0 (codes "%b()") ≡ tried (some 7) []
unfolding match match_switch match_balance balance_loop
match_balance_run = refl

match_malformed_run : match (codes "a") 3 [] 0 (codes "a%") ≡ stopped ends_with_percent
unfolding match match_switch class_end single_match item_matches
match_malformed_run = refl

-- A capture that is closed and never opened.
match_unopened_run : match (codes "a") 3 [] 0 (codes ")") ≡ stopped invalid_pattern_capture
unfolding match match_switch end_capture capture_to_close
match_unopened_run = refl

match-IsSound_example : IsSound 5 [] 2 (match (codes "hello") 6 [] 2 (codes "(l+)o"))
match-IsSound_example =
    match-IsSound (codes "hello") 6 [] 2 (codes "(l+)o") (omega arith) (omega arith)

-- In "aaab" the text "ab" stands at the third byte.
abbrev subject : Bytes
subject = codes "aaab"

lmemfind_run : lmemfind subject 0 (codes "ab") ≡ some 2
unfolding lmemfind lmemfind_loop memchr memcmp
lmemfind_run = refl

find-find_pattern_example : find subject 1 (codes "ab") false ≡ find_pattern subject 1 (codes "ab")
unfolding all_plain is_plain
find-find_pattern_example = find-find_pattern subject 1 (codes "ab") false (omega arith) refl

-- A `)` alone is no special byte: it is searched for as a text, where the matcher refuses it.
find_paren_run : find (codes "f(x)") 0 (codes ")") false ≡ found 3 4 []
unfolding find has_specials lmemfind lmemfind_loop memchr memcmp
find_paren_run = refl
