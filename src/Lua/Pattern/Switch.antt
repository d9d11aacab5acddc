-- ===== src/Lua/Pattern/Switch.antt =====
-- A call of `match` as a whole (open-ldb/lstrlib.c).
use lua_eclipse_ide.Base.{
  split_if, ℕ, zero, suc, ◌+◌, ◌-◌, ◌<◌, ◌≤◌, refl, ◌&&◌, ◌||◌, List, [], ◌∷◌, Bytes, none, some,
  length, ◌==◌, arith,
}
use lua_eclipse_ide.Lua.Pattern.{Capture, Outcome, tried, head_or_zero, tail}
use lua_eclipse_ide.Lua.Pattern.Classes.{ClassEnd, malformed, ends_at, class_end, l_esc, is_digit}
use lua_eclipse_ide.Lua.Pattern.Match.{
  item_matches, match_repeated, match_item, match_balanced, at_frontier, match_frontier,
  match_escape, match_start, match_switch, match,
}
use lua_eclipse_ide.Lua.Pattern.Sound.{
  IsSound, or_else-IsSound, IsSound-later, EndsWithin, length-tail, class_end-EndsWithin,
}
use lua_eclipse_ide.Lua.Pattern.Steps.{
  item_matches-below, NextIsSound, max_expand-IsSound, min_expand-IsSound, start_capture-IsSound,
  end_capture-IsSound, go_on-IsSound, match_capture-IsSound, match_balance-Ahead,
}

EndsWithin-mono : (k k' : ℕ) (ce : ClassEnd) → k ≤ k' → EndsWithin k ce → EndsWithin k' ce
EndsWithin-mono k k' (malformed e) le h = h
EndsWithin-mono k k' (ends_at ep) le h = omega arith

module _ (src : Bytes) where
  -- `go` matches soundly with a pattern of at most `k` bytes.
  abbrev GoIsSound : ℕ → (List Capture → ℕ → Bytes → Outcome) → Type 0
  GoIsSound k go =
      (cs : List Capture) (s : ℕ) (q : Bytes)
      → length q ≤ k
      → s ≤ length src
      → IsSound (length src) cs s (go cs s q)

  module _ (k : ℕ) (go : List Capture → ℕ → Bytes → Outcome) (sound : GoIsSound k go)
      (cs : List Capture) (s : ℕ) (h : s ≤ length src) where
    abbrev Good : Outcome → Type 0
    Good o = IsSound (length src) cs s o

    next-NextIsSound : (q : Bytes) → length q ≤ k → NextIsSound src (λ cs' s'. go cs' s' q)
    next-NextIsSound q l = λ cs' s' h'. sound cs' s' q l h'

    match_repeated-IsSound : (p ep : Bytes) → length ep ≤ k → Good (match_repeated src go cs s p ep)
    match_repeated-IsSound p ep l =
        let after = next-NextIsSound (tail ep) (omega (arith, length-tail ep)) in
        let below = item_matches-below src s p ep in
        split_if Good (head_or_zero ep == b'?') _ _
          (λ e.
            split_if Good (item_matches src s p ep) _ _
              (λ m.
                or_else-IsSound (length src) cs s _ _
                  (IsSound-later (length src) cs s (s + 1) _ (omega arith)
                    (after cs (s + 1) (omega (arith, below m))))
                  (after cs s h))
              λ m. after cs s h)
          λ e.
            split_if Good (head_or_zero ep == b'*') _ _
              (λ e. max_expand-IsSound src _ after cs s p ep h)
              λ e.
                split_if Good (head_or_zero ep == b'+') _ _
                  (λ e.
                    split_if Good (item_matches src s p ep) _ _
                      (λ m.
                        IsSound-later (length src) cs s (s + 1) _ (omega arith)
                          (max_expand-IsSound src _ after cs (s + 1) p ep (omega (arith, below m))))
                      λ m. refl)
                  λ e.
                    split_if Good (head_or_zero ep == b'-') _ _
                      (λ e. min_expand-IsSound src _ after (length src - s) cs s p ep h)
                      λ e.
                        split_if Good (item_matches src s p ep) _ _
                          (λ m.
                            IsSound-later (length src) cs s (s + 1) _ (omega arith)
                              (sound cs (s + 1) ep l (omega (arith, below m))))
                          λ m. refl

    match_item-IsSound :
        (p : Bytes) (ce : ClassEnd) → EndsWithin k ce → Good (match_item src go cs s p ce)
    match_item-IsSound p (malformed e) l = l
    match_item-IsSound p (ends_at ep) l = match_repeated-IsSound p ep l

    match_balanced-IsSound : (p : Bytes) → length p ≤ k → Good (match_balanced src go cs s p)
    match_balanced-IsSound [] l = tt
    match_balanced-IsSound (b ∷ []) l = tt
    match_balanced-IsSound (b ∷ e ∷ p) l =
        split_if Good (b == 0 || e == 0) _ _ (λ z. tt)
          λ z.
            go_on-IsSound src _ (next-NextIsSound p (omega arith)) cs s _
              (match_balance-Ahead src s b e)

    at_frontier-IsSound :
        (p : Bytes) (ce : ClassEnd) → EndsWithin k ce → Good (at_frontier src go cs s p ce)
    at_frontier-IsSound p (malformed e) l = l
    at_frontier-IsSound p (ends_at ep) l =
        split_if Good _ (tried none cs) (go cs s ep) (λ z. refl) λ z. sound cs s ep l h

    match_frontier-IsSound : (p : Bytes) → length p ≤ suc k → Good (match_frontier src go cs s p)
    match_frontier-IsSound [] l = tt
    match_frontier-IsSound (c ∷ p) l =
        split_if Good (c == b'[') _ _
          (λ e.
            at_frontier-IsSound (c ∷ p) (class_end (c ∷ p))
              (EndsWithin-mono (length p) k _ (omega arith) (class_end-EndsWithin c p)))
          λ e. tt

    item_at-IsSound :
        (c : ℕ) (p : Bytes)
        → length p ≤ k
        → Good (match_item src go cs s (c ∷ p) (class_end (c ∷ p)))
    item_at-IsSound c p l =
        match_item-IsSound (c ∷ p) (class_end (c ∷ p))
          (EndsWithin-mono (length p) k _ l (class_end-EndsWithin c p))

    match_escape-IsSound :
        (c : ℕ) (p : Bytes) → length p ≤ k → Good (match_escape src go cs s (c ∷ p))
    match_escape-IsSound c p l =
        let shorter : length (tail p) ≤ k = omega (arith, length-tail p) in
        split_if Good (head_or_zero p == b'b') _ _ (λ e. match_balanced-IsSound (tail p) shorter)
          λ e.
            split_if Good (head_or_zero p == b'f') _ _
              (λ e. match_frontier-IsSound (tail p) (omega arith))
              λ e.
                split_if Good (is_digit (head_or_zero p)) _ _
                  (λ e. match_capture-IsSound src _ (next-NextIsSound (tail p) shorter) cs s _ h)
                  λ e. item_at-IsSound c p l

    match_start-IsSound : (p : Bytes) → length p ≤ k → Good (match_start src go cs s p)
    match_start-IsSound p l =
        split_if Good (head_or_zero p == b')') _ _
          (λ e.
            start_capture-IsSound src _ (next-NextIsSound (tail p) (omega (arith, length-tail p)))
              cs s _ h)
          λ e. start_capture-IsSound src _ (next-NextIsSound p l) cs s _ h

    match_switch-IsSound : (c : ℕ) (p : Bytes) → length p ≤ k → Good (match_switch src go cs s c p)
    unfolding match_switch
    match_switch-IsSound c p l =
        split_if Good (c == b'(') _ _ (λ e. match_start-IsSound p l)
          λ e.
            split_if Good (c == b')') _ _
              (λ e. end_capture-IsSound src _ (next-NextIsSound p l) cs s h)
              λ e.
                split_if Good (c == l_esc) _ _ (λ e. match_escape-IsSound c p l)
                  λ e.
                    split_if Good (c == 0) _ _ (λ e. (omega arith, h))
                      λ e.
                        split_if Good (c == b'$' && head_or_zero p == 0) _ _
                          (λ e.
                            split_if Good (s == length src) (tried (some s) cs) (tried none cs)
                              (λ e. (omega arith, h)) λ e. refl)
                          λ e. item_at-IsSound c p l

  -- With more fuel than the pattern has bytes, a call of `match` ends. A match stands between `s` and
  -- the end of the subject; a call that fails leaves the captures as they were.
  pub match-IsSound :
      (fuel : ℕ) (cs : List Capture) (s : ℕ) (p : Bytes)
      → length p < fuel
      → s ≤ length src
      → IsSound (length src) cs s (match src fuel cs s p)
  unfolding match
  match-IsSound zero cs s p l h = absurd (omega arith)
  match-IsSound (suc fuel) cs s [] l h = (omega arith, h)
  match-IsSound (suc fuel) cs s (c ∷ p) l h =
      match_switch-IsSound (length p) (match src fuel)
        (λ cs' s' q l' h'. match-IsSound fuel cs' s' q (omega arith) h') cs s h c p (omega arith)
