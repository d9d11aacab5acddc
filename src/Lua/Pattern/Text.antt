-- ===== src/Lua/Pattern/Text.antt =====
-- The search for a text finds its first place (`lmemfind` of open-ldb/lstrlib.c), and `find` is one
-- function whichever search it uses.
use lua_eclipse_ide.Base.{
  split_if, ℕ, zero, suc, ◌+◌, ◌-◌, ◌<◌, ◌≤◌, ◌≡◌, refl, sym, ◌∙◌, Bool, true, false, not, ◌&&◌,
  ◌||◌, [], ◌∷◌, Bytes, Option, none, some, length, ltb, ◌==◌, if◌then◌else◌, arith, lt→ltb, ge→ltb,
}
use lua_eclipse_ide.Lua.Pattern.{char_at}
use lua_eclipse_ide.Lua.Pattern.Find.{
  memchr, memcmp, lmemfind_loop, lmemfind_check, lmemfind, find_pattern, found_text, find,
  has_specials,
}
use lua_eclipse_ide.Lua.Pattern.Plain.{
  all_plain, stands_at, first_place, find_loop-plain, head-caret,
}

and_false : (b : Bool) → (b && false) ≡ false
and_false true = refl
and_false false = refl

module _ (src : Bytes) where
  stands_at-long :
      (c : ℕ) (p : Bytes) (s : ℕ)
      → length src < s + suc (length p)
      → stands_at src s (c ∷ p) ≡ false
  unfolding stands_at
  stands_at-long c [] s h = rw (ge→ltb s (length src) (omega arith))
  stands_at-long c (d ∷ p) s h = rw (stands_at-long d p (s + 1) (omega arith)) (and_false _)

  memcmp-stands_at :
      (p : Bytes) (s : ℕ) → s + length p ≤ length src → memcmp src s p ≡ stands_at src s p
  unfolding memcmp stands_at
  memcmp-stands_at [] s h = refl
  memcmp-stands_at (c ∷ p) s h =
      rw (lt→ltb s (length src) (omega arith), memcmp-stands_at p (s + 1) (omega arith))

  -- The first place from `s` on.
  abbrev first_from : Bytes → ℕ → Option ℕ
  first_from p s = first_place src p (length src - s) s

  first_from-step :
      (p : Bytes) (s : ℕ)
      → s < length src
      → first_from p s ≡ (if stands_at src s p then some s else first_from p (s + 1))
  unfolding first_place
  first_from-step p s h =
      let e : length src - s ≡ suc (length src - (s + 1)) = omega arith in rw e refl

  first_place-long :
      (c : ℕ) (p : Bytes) (n s : ℕ)
      → length src < s + suc (length p)
      → first_place src (c ∷ p) n s ≡ none
  unfolding first_place
  first_place-long c p zero s h = rw (stands_at-long c p s h)
  first_place-long c p (suc n) s h =
      rw (stands_at-long c p s h, first_place-long c p n (s + 1) (omega arith))

  module _ (c : ℕ) (text : Bytes) where
    -- Up to the byte that `memchr` finds the text does not stand.
    abbrev Skips : ℕ → ℕ → Option ℕ → Type 0
    Skips n s none = first_from (c ∷ text) s ≡ none
    Skips n s (some i) =
        (s ≤ i)
        × (i < s + n)
        × ((c == char_at src i) ≡ true)
        × (first_from (c ∷ text) s ≡ first_from (c ∷ text) i)

    Skips-later :
        (n s : ℕ) (o : Option ℕ)
        → first_from (c ∷ text) s ≡ first_from (c ∷ text) (s + 1)
        → Skips n (s + 1) o
        → Skips (suc n) s o
    Skips-later n s none e h = e ∙ h
    Skips-later n s (some i) e (low, high, same, rest) = (omega arith, omega arith, same, e ∙ rest)

    first_from-other :
        (s : ℕ)
        → s < length src
        → (char_at src s == c) ≡ false
        → first_from (c ∷ text) s ≡ first_from (c ∷ text) (s + 1)
    unfolding stands_at
    first_from-other s h e =
        let flipped : (c == char_at src s) ≡ false = ground (arith, e) in
        first_from-step (c ∷ text) s h ∙ (rw (lt→ltb s (length src) h, flipped) refl)

    memchr-Skips : (n s : ℕ) → s + n + length text ≡ length src → Skips n s (memchr src c n s)
    unfolding memchr
    memchr-Skips zero s h = first_place-long c text _ s (omega arith)
    memchr-Skips (suc n) s h =
        split_if (Skips (suc n) s) (char_at src s == c) (some s) (memchr src c n (s + 1))
          (λ e. (omega arith, omega arith, ground (arith, e), refl))
          λ e.
            Skips-later n s _ (first_from-other s (omega arith) e)
              (memchr-Skips n (s + 1) (omega arith))

    first_from-memcmp :
        (i : ℕ)
        → i + suc (length text) ≤ length src
        → (c == char_at src i) ≡ true
        → first_from (c ∷ text) i
          ≡ (if memcmp src (i + 1) text then some i else first_from (c ∷ text) (i + 1))
    unfolding stands_at
    first_from-memcmp i h e =
        first_from-step (c ∷ text) i (omega arith)
        ∙ (rw (lt→ltb i (length src) (omega arith), e, memcmp-stands_at text (i + 1) (omega arith))
            refl)

    lmemfind_check-first_from :
        (again : ℕ → Option ℕ) (n s : ℕ) (o : Option ℕ)
        → s + n + length text ≡ length src
        → Skips n s o
        → ((i : ℕ) → s < i → i ≤ s + n → again i ≡ first_from (c ∷ text) i)
        → lmemfind_check src again text o ≡ first_from (c ∷ text) s
    lmemfind_check-first_from again n s none h skips rec = sym skips
    lmemfind_check-first_from again n s (some i) h (low, high, same, rest) rec =
        rw (rec (i + 1) (omega arith) (omega arith), rest)
          (sym (first_from-memcmp i (omega arith) same))

    lmemfind_loop-first_from :
        (fuel n s : ℕ)
        → n < fuel
        → s + n + length text ≡ length src
        → lmemfind_loop src fuel c text n s ≡ first_from (c ∷ text) s
    unfolding lmemfind_loop
    lmemfind_loop-first_from zero n s l h = absurd (omega arith)
    lmemfind_loop-first_from (suc fuel) n s l h =
        lmemfind_check-first_from _ n s (memchr src c n s) h (memchr-Skips n s h)
          λ i low high. lmemfind_loop-first_from fuel (n - (i - s)) i (omega arith) (omega arith)

  first_place-nil : (n s : ℕ) → first_place src [] n s ≡ some s
  unfolding first_place stands_at
  first_place-nil zero s = refl
  first_place-nil (suc n) s = refl

  -- From a place inside the subject, or its end, `lmemfind` gives the first place where the text
  -- stands, whatever bytes the text has, and a null pointer if there is none.
  pub lmemfind-first_place :
      (s : ℕ) (p : Bytes) → s ≤ length src → lmemfind src s p ≡ first_place src p (length src - s) s
  unfolding lmemfind
  lmemfind-first_place s [] h = sym (first_place-nil (length src - s) s)
  lmemfind-first_place s (c ∷ text) h =
      split_if (λ o. o ≡ first_place src (c ∷ text) (length src - s) s)
        (ltb (length src - s) (suc (length text))) _ _
        (λ e. sym (first_place-long c text _ s (ground (arith, e))))
        λ e. lmemfind_loop-first_from c text _ _ s (omega arith) (ground (arith, e, h))

  lmemfind-find_pattern :
      (s : ℕ) (p : Bytes)
      → s ≤ length src
      → all_plain p ≡ true
      → found_text p (lmemfind src s p) ≡ find_pattern src s p
  unfolding find_pattern
  lmemfind-find_pattern s p h plain =
      rw
        (
          lmemfind-first_place s p h,
          head-caret p plain,
          find_loop-plain src (length src - s) s p plain,
        )
        refl

-- Where the pattern has no special byte, no `)` and no zero, `find` gives the same with the plain
-- search as with the matcher.
pub find-find_pattern :
    (src : Bytes) (s : ℕ) (p : Bytes) (plain : Bool)
    → s ≤ length src
    → all_plain p ≡ true
    → find src s p plain ≡ find_pattern src s p
unfolding find
find-find_pattern src s p plain h all =
    split_if (λ r. r ≡ find_pattern src s p) (plain || not (has_specials p)) _ _
      (λ e. lmemfind-find_pattern src s p h all) λ e. refl
