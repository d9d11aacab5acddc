-- ===== src/Lua/Pattern/Classes.antt =====
-- Single items of a pattern (open-ldb/lstrlib.c): classes, sets, and where an item ends. The tests
-- on characters are those of the C locale.
use lua_eclipse_ide.Base.{
  ℕ, ◌+◌, ◌-◌, Bool, true, false, not, ◌&&◌, ◌||◌, [], ◌∷◌, Bytes, Option, none, some, length, take,
  leb, ltb, ◌==◌, if◌then◌else◌,
}
use lua_eclipse_ide.Lua.Pattern.{
  PatternError, ends_with_percent, missing_bracket, head_or_zero, tail,
}

abbrev pub l_esc : ℕ
l_esc = b'%'

abbrev between : ℕ → ℕ → ℕ → Bool
between a b c = leb a c && leb c b

abbrev pub is_lower : ℕ → Bool
is_lower c = between b'a' b'z' c

abbrev pub is_upper : ℕ → Bool
is_upper c = between b'A' b'Z' c

abbrev pub is_digit : ℕ → Bool
is_digit c = between b'0' b'9' c

abbrev pub is_alpha : ℕ → Bool
is_alpha c = is_lower c || is_upper c

abbrev pub is_alnum : ℕ → Bool
is_alnum c = is_alpha c || is_digit c

abbrev pub is_cntrl : ℕ → Bool
is_cntrl c = ltb c 32 || c == 127

abbrev pub is_space : ℕ → Bool
is_space c = c == 32 || between 9 13 c

abbrev pub is_punct : ℕ → Bool
is_punct c = between 33 126 c && not (is_alnum c)

abbrev pub is_xdigit : ℕ → Bool
is_xdigit c = is_digit c || between b'a' b'f' c || between b'A' b'F' c

abbrev pub to_lower : ℕ → ℕ
to_lower c = if is_upper c then c + 32 else c

-- The switch of `match_class`; `none` is its default.
abbrev pub class_of : ℕ → ℕ → Option Bool
class_of c cl =
    if cl == b'a'
    then some (is_alpha c)
    else if cl == b'c'
    then some (is_cntrl c)
    else if cl == b'd'
    then some (is_digit c)
    else if cl == b'l'
    then some (is_lower c)
    else if cl == b'p'
    then some (is_punct c)
    else if cl == b's'
    then some (is_space c)
    else if cl == b'u'
    then some (is_upper c)
    else if cl == b'w'
    then some (is_alnum c)
    else if cl == b'x'
    then some (is_xdigit c)
    else if cl == b'z'
    then some (c == 0)
    else none

abbrev pub class_result : ℕ → ℕ → Option Bool → Bool
class_result c cl none = cl == c
class_result c cl (some res) = if is_lower cl then res else not res

unfoldable pub match_class : ℕ → ℕ → Bool
match_class c cl = class_result c cl (class_of c (to_lower cl))

-- The loop of `matchbracketclass` over the bytes between the brackets; behind them stands `]`.
unfoldable pub in_set : ℕ → Bool → Bytes → Bool
in_set c sig [] = not sig
in_set c sig (x ∷ []) =
    if x == l_esc
    then if match_class c b']' then sig else not sig
    else if x == c
    then sig
    else not sig
in_set c sig (x ∷ y ∷ []) =
    let skip_one = in_set c sig (y ∷ []) in
    if x == l_esc
    then if match_class c y then sig else not sig
    else if x == c
    then sig
    else skip_one
in_set c sig (x ∷ y ∷ z ∷ body) =
    let skip_one = in_set c sig (y ∷ z ∷ body) in
    let skip_two = in_set c sig (z ∷ body) in
    let skip_range = in_set c sig body in
    if x == l_esc
    then if match_class c y then sig else skip_two
    else if y == b'-'
    then if leb x c && leb c z then sig else skip_range
    else if x == c
    then sig
    else skip_one

unfoldable pub match_bracket_class : ℕ → Bytes → Bool
match_bracket_class c [] = in_set c true []
match_bracket_class c (x ∷ body) =
    if x == b'^' then in_set c false body else in_set c true (x ∷ body)

-- The bytes between the `[` at `p` and the `]` before `ep`.
abbrev pub set_body : Bytes → Bytes → Bytes
set_body p ep = take (length p - length ep - 2) (tail p)

pub data ClassEnd : Type 0 where
  malformed : PatternError → ClassEnd
  ends_at : Bytes → ClassEnd

-- The loop of `classend` in a set, at the first byte that it looks at.
unfoldable pub bracket_end : Bytes → ClassEnd
bracket_end [] = malformed missing_bracket
bracket_end (c ∷ []) = malformed missing_bracket
bracket_end (c ∷ d ∷ p) =
    let escaped = if head_or_zero p == b']' then ends_at (tail p) else bracket_end p in
    let plain = if d == b']' then ends_at p else bracket_end (d ∷ p) in
    if c == 0
    then malformed missing_bracket
    else if c == l_esc && not (d == 0)
    then escaped
    else plain

unfoldable pub class_end : Bytes → ClassEnd
class_end [] = ends_at []
class_end (c ∷ p) =
    if c == l_esc
    then if head_or_zero p == 0 then malformed ends_with_percent else ends_at (tail p)
    else if c == b'['
    then bracket_end (if head_or_zero p == b'^' then tail p else p)
    else ends_at p

unfoldable pub single_match : ℕ → Bytes → Bytes → Bool
single_match c p ep =
    let x = head_or_zero p in
    if x == b'.'
    then true
    else if x == l_esc
    then match_class c (head_or_zero (tail p))
    else if x == b'['
    then match_bracket_class c (set_body p ep)
    else x == c
