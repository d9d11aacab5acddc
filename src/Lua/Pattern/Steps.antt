-- ===== src/Lua/Pattern/Steps.antt =====
-- The steps of the matcher keep what `IsSound` says (open-ldb/lstrlib.c).
use lua_eclipse_ide.Base.{
  split_if, ℕ, zero, suc, ◌+◌, ◌-◌, ◌<◌, ◌≤◌, ◌≡◌, refl, true, List, [], ◌∷◌, ◌++◌, Bytes, Option,
  none, some, length, get_elem?, leb, ◌==◌, arith,
}
use lua_eclipse_ide.Lua.Pattern.{
  CaptureLen, unfinished, position, finished, Capture, Outcome, stopped, tried, char_at,
}
use lua_eclipse_ide.Lua.Pattern.Match.{
  is_unfinished, capture_to_close, set_len, balance_loop, match_balance, item_matches, count_items,
  max_try, max_expand, min_expand, undo_start, start_capture, undo_end, close_at, end_capture,
  same_text, go_on, capture_found, match_capture,
}
use lua_eclipse_ide.Lua.Pattern.Sound.{
  IsSound, IsSound-later, or_else-IsSound, drop_last-append, set_len-set_len, IsOpen, IsOpenAt,
  capture_to_close-IsOpenAt,
}

module _ (src : Bytes) where
  -- Places are counted in `n`, the length of the subject.
  pub item_matches-below : (s : ℕ) (p ep : Bytes) → item_matches src s p ep ≡ true → s < length src
  unfolding item_matches
  item_matches-below s p ep h = ground arith

  count_items-below :
      (n s : ℕ) (p ep : Bytes) → s ≤ length src → s + count_items src n s p ep ≤ length src
  unfolding count_items
  count_items-below zero s p ep h = omega arith
  count_items-below (suc n) s p ep h =
      split_if (λ k. s + k ≤ length src) (item_matches src s p ep) _ _
        (λ e.
          omega
            (arith, count_items-below n (s + 1) p ep (omega (arith, item_matches-below s p ep e))))
        λ e. omega (arith, h)

  -- What follows an item, a capture or a test is matched soundly.
  abbrev pub NextIsSound : (List Capture → ℕ → Outcome) → Type 0
  NextIsSound next =
      (cs : List Capture) (s : ℕ) → s ≤ length src → IsSound (length src) cs s (next cs s)

  -- The next place is between `s` and the end.
  abbrev pub Ahead : ℕ → Option ℕ → Type 0
  Ahead s none = Unit {0}
  Ahead s (some r) = (s ≤ r) × (r ≤ length src)

  Ahead-later : (s s' : ℕ) (o : Option ℕ) → s ≤ s' → Ahead s' o → Ahead s o
  Ahead-later s s' none le h = h
  Ahead-later s s' (some r) le (low, high) = (omega arith, high)

  balance_loop-Ahead :
      (n s b e cont : ℕ) → (0 < n → s + n ≤ length src) → Ahead s (balance_loop src n s b e cont)
  unfolding balance_loop
  balance_loop-Ahead zero s b e cont h = tt
  balance_loop-Ahead (suc n) s b e cont h =
      let further = h (omega arith) in
      let next = λ (d : ℕ).
        Ahead-later s (s + 1) _ (omega arith)
          (balance_loop-Ahead n (s + 1) b e d λ z. omega (arith, further)) in
      split_if (Ahead s) (char_at src s == e) _ _
        (λ e.
          split_if (Ahead s) (cont == 1) _ _ (λ e. (omega arith, omega (arith, further)))
            λ e. next (cont - 1))
        λ e. split_if (Ahead s) (char_at src s == b) _ _ (λ e. next (cont + 1)) λ e. next cont

  pub match_balance-Ahead : (s b e : ℕ) → Ahead s (match_balance src s b e)
  unfolding match_balance
  match_balance-Ahead s b e =
      split_if (Ahead s) (char_at src s == b) _ _
        (λ e'.
          Ahead-later s (s + 1) _ (omega arith)
            (balance_loop-Ahead _ (s + 1) b e 1 λ z. omega arith))
        λ e'. tt

  same_text-Ahead :
      (len : CaptureLen) (init s : ℕ) → s ≤ length src → Ahead s (same_text src len init s)
  same_text-Ahead (finished len) init s h =
      split_if (Ahead s) _ (some (s + len)) none (λ e. (omega arith, ground (arith, e, h))) λ e. tt
  same_text-Ahead unfinished init s h = tt
  same_text-Ahead position init s h = tt

  module _ (next : List Capture → ℕ → Outcome) (sound : NextIsSound next) where
    max_try-IsSound :
        (i : ℕ) (cs : List Capture) (s : ℕ)
        → s + i ≤ length src
        → IsSound (length src) cs s (max_try src next i cs s)
    unfolding max_try
    max_try-IsSound zero cs s h = sound cs s (omega arith)
    max_try-IsSound (suc i) cs s h =
        or_else-IsSound (length src) cs s _ _
          (IsSound-later (length src) cs s (s + suc i) _ (omega arith) (sound cs (s + suc i) h))
          (max_try-IsSound i cs s (omega arith))

    pub max_expand-IsSound :
        (cs : List Capture) (s : ℕ) (p ep : Bytes)
        → s ≤ length src
        → IsSound (length src) cs s (max_expand src next cs s p ep)
    unfolding max_expand
    max_expand-IsSound cs s p ep h =
        max_try-IsSound _ cs s (count_items-below (length src - s) s p ep h)

    pub min_expand-IsSound :
        (n : ℕ) (cs : List Capture) (s : ℕ) (p ep : Bytes)
        → s ≤ length src
        → IsSound (length src) cs s (min_expand src next n cs s p ep)
    unfolding min_expand
    min_expand-IsSound zero cs s p ep h = sound cs s h
    min_expand-IsSound (suc n) cs s p ep h = or_else-IsSound (length src) cs s _ _ (sound cs s h) (
        split_if (IsSound (length src) cs s) (item_matches src s p ep) _ _
          (λ e.
            IsSound-later (length src) cs s (s + 1) _ (omega arith)
              (min_expand-IsSound n cs (s + 1) p ep (omega (arith, item_matches-below s p ep e))))
          λ e. refl)

    undo_start-IsSound :
        (cs : List Capture) (c : Capture) (s : ℕ) (o : Outcome)
        → IsSound (length src) (cs ++ c ∷ []) s o
        → IsSound (length src) cs s (undo_start o)
    undo_start-IsSound cs c s (stopped e) h = h
    undo_start-IsSound cs c s (tried none cs') h = rw h (drop_last-append cs c)
    undo_start-IsSound cs c s (tried (some r) cs') h = h

    pub start_capture-IsSound :
        (cs : List Capture) (s : ℕ) (what : CaptureLen)
        → s ≤ length src
        → IsSound (length src) cs s (start_capture src next cs s what)
    unfolding start_capture
    start_capture-IsSound cs s what h =
        split_if (IsSound (length src) cs s) (leb 32 (length cs)) _ _ (λ e. tt)
          λ e. undo_start-IsSound cs _ s _ (sound _ s h)

    undo_end-IsSound :
        (cs : List Capture) (l : ℕ) (x : CaptureLen) (s : ℕ) (o : Outcome)
        → IsOpen (get_elem? cs l)
        → IsSound (length src) (set_len l x cs) s o
        → IsSound (length src) cs s (undo_end l o)
    undo_end-IsSound cs l x s (stopped e) is_open h = h
    undo_end-IsSound cs l x s (tried none cs') is_open h = rw h (set_len-set_len l x cs is_open)
    undo_end-IsSound cs l x s (tried (some r) cs') is_open h = h

    close_at-IsSound :
        (cs : List Capture) (o : Option ℕ) (s : ℕ)
        → s ≤ length src
        → IsOpenAt cs o
        → IsSound (length src) cs s (close_at src next o cs s)
    close_at-IsSound cs none s h is_open = tt
    close_at-IsSound cs (some l) s h is_open = undo_end-IsSound cs l _ s _ is_open (sound _ s h)

    pub end_capture-IsSound :
        (cs : List Capture) (s : ℕ)
        → s ≤ length src
        → IsSound (length src) cs s (end_capture src next cs s)
    unfolding end_capture
    end_capture-IsSound cs s h =
        close_at-IsSound cs (capture_to_close cs) s h (capture_to_close-IsOpenAt cs)

    pub go_on-IsSound :
        (cs : List Capture) (s : ℕ) (o : Option ℕ)
        → Ahead s o
        → IsSound (length src) cs s (go_on src next cs o)
    go_on-IsSound cs s none h = refl
    go_on-IsSound cs s (some r) (low, high) =
        IsSound-later (length src) cs s r _ low (sound cs r high)

    capture_found-IsSound :
        (cs : List Capture) (s : ℕ) (o : Option Capture)
        → s ≤ length src
        → IsSound (length src) cs s (capture_found src next cs s o)
    capture_found-IsSound cs s none h = tt
    capture_found-IsSound cs s (some c) h =
        split_if (IsSound (length src) cs s) (is_unfinished c.len) _ _ (λ e. tt)
          λ e. go_on-IsSound cs s (same_text src c.len c.init s) (same_text-Ahead c.len c.init s h)

    pub match_capture-IsSound :
        (cs : List Capture) (s digit : ℕ)
        → s ≤ length src
        → IsSound (length src) cs s (match_capture src next cs s digit)
    unfolding match_capture
    match_capture-IsSound cs s digit h =
        split_if (IsSound (length src) cs s) (digit == b'0') _ _ (λ e. tt)
          λ e. capture_found-IsSound cs s _ h
