-- ===== src/Lua/Pattern/Plain.antt =====
-- The search for a plain text finds what the search for a pattern would (open-ldb/lstrlib.c).
use lua_eclipse_ide.Base.{
  ℕ, zero, suc, ◌+◌, ◌<◌, ◌≡◌, refl, Bool, true, false, not, ◌&&◌, ◌||◌, List, [], ◌∷◌, Bytes,
  Option, none, some, length, ltb, ◌==◌, if◌then◌else◌, arith, Bool-cases, ==_iff, ap, inl, inr,
}
use lua_eclipse_ide.Lua.Pattern.{Capture, Outcome, tried, head_or_zero, char_at}
use lua_eclipse_ide.Lua.Pattern.Classes.{class_end, single_match}
use lua_eclipse_ide.Lua.Pattern.Match.{item_matches, match_switch, match}
use lua_eclipse_ide.Lua.Pattern.Find.{find_loop, is_special, found_text, after_try}

-- No special byte, no `)`, and no zero.
unfoldable pub is_plain : ℕ → Bool
is_plain c = not (is_special c || c == b')' || c == 0)

unfoldable pub all_plain : Bytes → Bool
all_plain [] = true
all_plain (c ∷ p) = is_plain c && all_plain p

and_left : (a b : Bool) → (a && b) ≡ true → a ≡ true
and_left true b h = refl
and_left false b h = cc

and_right : (a b : Bool) → (a && b) ≡ true → b ≡ true
and_right true b h = h
and_right false b h = cc

plain_and_not : (k c : ℕ) → is_plain k ≡ false → is_plain c ≡ true → c ≡ k → (c == k) ≡ false
plain_and_not k c h h' e = cc

not_plain : (k c : ℕ) → is_plain k ≡ false → is_plain c ≡ true → (c == k) ≡ false
not_plain k c h h' = elim (Bool-cases (c == k)) [
  | inl e ↦ plain_and_not k c h h' ((==_iff c k).0 e)
  | inr e ↦ e
]

abbrev IsPlainOrEnd : ℕ → Type 0
IsPlainOrEnd c =
    ((c == b'?') ≡ false) × ((c == b'*') ≡ false) × ((c == b'+') ≡ false) × ((c == b'-') ≡ false)

head-IsPlainOrEnd : (p : Bytes) → all_plain p ≡ true → IsPlainOrEnd (head_or_zero p)
unfolding all_plain is_plain
head-IsPlainOrEnd [] h = (refl, refl, refl, refl)
head-IsPlainOrEnd (c ∷ p) h =
    let plain = and_left (is_plain c) (all_plain p) h in
    (
      not_plain b'?' c refl plain,
      not_plain b'*' c refl plain,
      not_plain b'+' c refl plain,
      not_plain b'-' c refl plain,
    )

pub head-caret : (p : Bytes) → all_plain p ≡ true → (head_or_zero p == b'^') ≡ false
unfolding all_plain is_plain
head-caret [] h = refl
head-caret (c ∷ p) h = not_plain b'^' c refl (and_left (is_plain c) (all_plain p) h)

plain-head : (c : ℕ) (p : Bytes) → all_plain (c ∷ p) ≡ true → is_plain c ≡ true
unfolding all_plain
plain-head c p h = and_left (is_plain c) (all_plain p) h

plain-tail : (c : ℕ) (p : Bytes) → all_plain (c ∷ p) ≡ true → all_plain p ≡ true
unfolding all_plain
plain-tail c p h = and_right (is_plain c) (all_plain p) h

if_merge {ℓ} :
    {A : Type ℓ} (a b d : Bool) (x y : A)
    → (if a && b then (if d then x else y) else y) ≡ (if a && b && d then x else y)
if_merge true true d x y = refl
if_merge true false d x y = refl
if_merge false b d x y = refl

module _ (src : Bytes) where
  -- The text stands in the subject at `s`.
  unfoldable pub stands_at : ℕ → Bytes → Bool
  stands_at s [] = true
  stands_at s (c ∷ p) = ltb s (length src) && c == char_at src s && stands_at (s + 1) p

  switch_plain :
      (go : List Capture → ℕ → Bytes → Outcome) (cs : List Capture) (s c : ℕ) (p : Bytes)
      → is_plain c ≡ true
      → IsPlainOrEnd (head_or_zero p)
      → match_switch src go cs s c p
        ≡ (if ltb s (length src) && c == char_at src s then go cs (s + 1) p else tried none cs)
  unfolding match_switch class_end single_match item_matches is_plain
  switch_plain go cs s c p h (e1, e2, e3, e4) =
      let f1 = not_plain b'(' c refl h in
      let f2 = not_plain b')' c refl h in
      let f3 = not_plain b'%' c refl h in
      let f4 = not_plain 0 c refl h in
      let f5 = not_plain b'$' c refl h in
      let f6 = not_plain b'[' c refl h in
      let f7 = not_plain b'.' c refl h in simp (f1, f2, f3, f4, f5, f6, f7, e1, e2, e3, e4)

  -- A plain pattern matches where its text stands, and nowhere else.
  pub match-plain :
      (fuel : ℕ) (cs : List Capture) (s : ℕ) (p : Bytes)
      → length p < fuel
      → all_plain p ≡ true
      → match src fuel cs s p
        ≡ (if stands_at s p then tried (some (s + length p)) cs else tried none cs)
  unfolding match stands_at
  match-plain zero cs s p l h = absurd (omega arith)
  match-plain (suc fuel) cs s [] l h = ap (λ r. tried (some r) cs) (omega arith)
  match-plain (suc fuel) cs s (c ∷ p) l h =
      let rest = plain-tail c p h in
      let step : s + 1 + length p ≡ s + suc (length p) = omega arith in
      rw
        (
          switch_plain (match src fuel) cs s c p (plain-head c p h) (head-IsPlainOrEnd p rest),
          match-plain fuel cs (s + 1) p (omega arith) rest,
          step,
        )
        (if_merge (ltb s (length src)) (c == char_at src s) (stands_at (s + 1) p) _ _)

  -- The first place from `s` on, `n` places further at most, where the text stands.
  unfoldable pub first_place : Bytes → ℕ → ℕ → Option ℕ
  first_place p zero s = if stands_at s p then some s else none
  first_place p (suc n) s =
      let further = first_place p n (s + 1) in if stands_at s p then some s else further

  found_text-if :
      (p : Bytes) (s : ℕ) (b : Bool) (again : Option ℕ)
      → after_try false
          (found_text p again)
          s
          (if b then tried (some (s + length p)) [] else tried none [])
        ≡ found_text p (if b then some s else again)
  found_text-if p s true again = refl
  found_text-if p s false again = refl

  pub find_loop-plain :
      (n s : ℕ) (p : Bytes)
      → all_plain p ≡ true
      → find_loop src false p n s ≡ found_text p (first_place p n s)
  unfolding find_loop first_place
  find_loop-plain zero s p h =
      rw (match-plain (suc (length p)) [] s p (omega arith) h)
        (found_text-if p s (stands_at s p) none)
  find_loop-plain (suc n) s p h =
      rw (match-plain (suc (length p)) [] s p (omega arith) h, find_loop-plain n (s + 1) p h)
        (found_text-if p s (stands_at s p) (first_place p n (s + 1)))
