-- ===== src/Lua/Pattern/Find.antt =====
-- The two searches of `str_find_aux` (open-ldb/lstrlib.c), from a place `s` of the subject on: for
-- a plain text, and for a pattern.
use lua_eclipse_ide.Base.{
  ℕ, zero, suc, ◌+◌, ◌-◌, Bool, true, false, not, ◌&&◌, ◌||◌, List, [], ◌∷◌, Bytes, Option, none,
  some, length, ltb, ◌==◌, if◌then◌else◌,
}
use lua_eclipse_ide.Lua.Pattern.{
  PatternError, Capture, Outcome, stopped, tried, head_or_zero, tail, char_at,
}
use lua_eclipse_ide.Lua.Pattern.Match.{match}

pub data Found : Type 0 where
  find_stopped : PatternError → Found
  not_found : Found
  found : ℕ → ℕ → List Capture → Found

abbrev pub after_try : Bool → Found → ℕ → Outcome → Found
after_try anchor again s (stopped e) = find_stopped e
after_try anchor again s (tried (some r) cs) = found s r cs
after_try anchor again s (tried none cs) = if anchor then not_found else again

module _ (src : Bytes) where
  -- `memchr`: the first of the `n` places from `s` on that holds `c`.
  unfoldable pub memchr : ℕ → ℕ → ℕ → Option ℕ
  memchr c zero s = none
  memchr c (suc n) s =
      let further = memchr c n (s + 1) in if char_at src s == c then some s else further

  -- `memcmp(init, text, length) == 0`
  unfoldable pub memcmp : ℕ → Bytes → Bool
  memcmp s [] = true
  memcmp s (c ∷ text) = c == char_at src s && memcmp (s + 1) text

  -- What follows a first byte that was found; `again i` searches from `i` on.
  abbrev pub lmemfind_check : (ℕ → Option ℕ) → Bytes → Option ℕ → Option ℕ
  lmemfind_check again text none = none
  lmemfind_check again text (some i) =
      let later = again (i + 1) in if memcmp (i + 1) text then some i else later

  -- The loop of `lmemfind` for the text `c ∷ text`; `n` is `l1`.
  unfoldable pub lmemfind_loop : ℕ → ℕ → Bytes → ℕ → ℕ → Option ℕ
  lmemfind_loop zero c text n s = none
  lmemfind_loop (suc fuel) c text n s =
      lmemfind_check (λ i. lmemfind_loop fuel c text (n - (i - s)) i) text (memchr c n s)

  unfoldable pub lmemfind : ℕ → Bytes → Option ℕ
  lmemfind s [] = some s
  lmemfind s (c ∷ text) =
      let l1 = length src - s in
      if ltb l1 (suc (length text))
      then none
      else lmemfind_loop (suc l1) c text (l1 - length text) s

  -- The loop of `str_find_aux`: `n` places are left behind `s`.
  unfoldable pub find_loop : Bool → Bytes → ℕ → ℕ → Found
  find_loop anchor p zero s = after_try anchor not_found s (match src (suc (length p)) [] s p)
  find_loop anchor p (suc n) s =
      after_try anchor (find_loop anchor p n (s + 1)) s (match src (suc (length p)) [] s p)

  -- The search for a pattern, which `^` anchors at `s`.
  unfoldable pub find_pattern : ℕ → Bytes → Found
  find_pattern s p =
      if head_or_zero p == b'^'
      then find_loop true (tail p) (length src - s) s
      else find_loop false p (length src - s) s

-- A byte that is none of SPECIALS.
abbrev pub is_special : ℕ → Bool
is_special c =
    c == b'^'
    || c == b'$'
    || c == b'*'
    || c == b'+'
    || c == b'?'
    || c == b'.'
    || c == b'('
    || c == b'['
    || c == b'%'
    || c == b'-'

-- `strpbrk(p, SPECIALS) != NULL`, which looks no further than a zero.
unfoldable pub has_specials : Bytes → Bool
has_specials [] = false
has_specials (c ∷ p) = let rest = has_specials p in if c == 0 then false else is_special c || rest

-- The places of the whole match, as numbers from 1.
abbrev pub found_text : Bytes → Option ℕ → Found
found_text p none = not_found
found_text p (some s) = found s (s + length p) []

-- `str_find_aux` for `find` from the place `s` on.
unfoldable pub find : Bytes → ℕ → Bytes → Bool → Found
find src s p plain =
    if plain || not (has_specials p) then found_text p (lmemfind src s p) else find_pattern src s p
