-- ===== src/Breakpoints/Laws.antt =====
-- What setting and clearing do to the lines at which a script stops.
use lua_eclipse_ide.Base.{
  ℕ, ◌+◌, false, Option, none, some, List, [], ◌∷◌, ◌++◌, Bytes, ℤ, eq_int, eq_int_iff,
  if◌then◌else◌, ◌≡◌, ap, refl, arith, Option-cases, inl, inr, eq_bytes, eq_bytes_iff, ◌↔◌,
}
use lua_eclipse_ide.ScriptMap.{assign, assign_self}
use lua_eclipse_ide.Breakpoints.{
  Breakpoints, set_breakpoint_list, erase_line, clear_breakpoint, store_erased, at_breakpoint,
}

-- How many entries of the list are the line.
abbrev pub hits : ℤ → List ℤ → ℕ
hits line [] = 0
hits line (b ∷ list) = (if eq_int b line then 1 else 0) + hits line list

hits-append : (line : ℤ) (xs ys : List ℤ) → hits line (xs ++ ys) ≡ hits line xs + hits line ys
hits-append line [] ys = omega arith
hits-append line (b ∷ xs) ys = omega (arith, hits-append line xs ys)

pub at_breakpoint-hits :
    (line : ℤ) (list : List ℤ) → (at_breakpoint line list ≡ false) ↔ (hits line list ≡ 0)
unfolding at_breakpoint
at_breakpoint-hits line [] = ground arith
at_breakpoint-hits line (b ∷ list) = ground (arith, at_breakpoint-hits line list)

-- Setting a breakpoint adds one entry for that line of that script, and changes no other.
pub hits-set_breakpoint_list :
    (all : Breakpoints) (script other : Bytes) (line at : ℤ)
    → hits at (set_breakpoint_list all script line other)
      ≡ hits at (all other) + (if eq_bytes script other then if eq_int line at then 1 else 0 else 0)
unfolding set_breakpoint_list
hits-set_breakpoint_list all script other line at = ground (
  arith,
  eq_bytes_iff script other,
  hits-append at (all script) (line ∷ []),
  hits-append at (all other) (line ∷ []),
)

erase_line-hits :
    (line at : ℤ) (list : List ℤ) {rest : List ℤ}
    → erase_line line list ≡ some rest
    → hits at list ≡ hits at rest + (if eq_int line at then 1 else 0)
unfolding erase_line
erase_line-hits line at [] h = cc
erase_line-hits line at (b ∷ list) h = elim (Option-cases (erase_line line list)) [
  | inl e ↦ ground (arith, eq_int_iff b line, eq_int_iff b at, eq_int_iff line at)
  | inr (r, e) ↦ ground (
    arith,
    eq_int_iff b line,
    eq_int_iff b at,
    eq_int_iff line at,
    erase_line-hits line at list e,
  )
]

erase_line-none : (line : ℤ) (list : List ℤ) → (erase_line line list ≡ none) ↔ (hits line list ≡ 0)
unfolding erase_line
erase_line-none line [] = ground arith
erase_line-none line (b ∷ list) = ground (arith, erase_line-none line list)

store_erased_inv :
    (all : Breakpoints) (script : Bytes) (found : Option (List ℤ)) {all' : Breakpoints}
    → store_erased all script found ≡ some all'
    → (rest : List ℤ) × (found ≡ some rest) × (all' ≡ assign all script rest)
store_erased_inv all script none h = cc
store_erased_inv all script (some rest) h = (rest, refl, cc)

-- Clearing a line of a script takes away one entry for that line of that script, and changes no
-- other; it finds nothing exactly where the script has no entry for the line.
pub hits-clear_breakpoint :
    (all : Breakpoints) (script other : Bytes) (line at : ℤ) {all' : Breakpoints}
    → clear_breakpoint all script line ≡ some all'
    → hits at (all other)
      ≡ hits at (all' other)
        + (if eq_bytes script other then if eq_int line at then 1 else 0 else 0)
unfolding clear_breakpoint
hits-clear_breakpoint all script other line at h =
    let (rest, erased, stored) = store_erased_inv all script (erase_line line (all script)) h in
    rw stored (
      ground (
        arith,
        eq_bytes_iff script other,
        erase_line-hits line at (all script) erased,
        ap (hits at) (assign_self all script rest),
      ))

pub clear_breakpoint-none :
    (all : Breakpoints) (script : Bytes) (line : ℤ)
    → (clear_breakpoint all script line ≡ none) ↔ (at_breakpoint line (all script) ≡ false)
unfolding clear_breakpoint
clear_breakpoint-none all script line =
    ground (arith, erase_line-none line (all script), at_breakpoint-hits line (all script))
