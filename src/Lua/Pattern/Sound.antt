-- ===== src/Lua/Pattern/Sound.antt =====
-- Where a match can end, what a failed one leaves, and that the matcher ends
-- (is_open-ldb/lstrlib.c).
use lua_eclipse_ide.Base.{
  split_if, ℕ, zero, suc, ◌<◌, ◌≤◌, ◌≡◌, refl, sym, true, not, ◌&&◌, List, [], ◌∷◌, ◌++◌, Bytes,
  Option, none, some, length, get_elem?, ap, ◌==◌, arith,
}
use lua_eclipse_ide.Lua.Pattern.{
  PatternError, out_of_fuel, CaptureLen, unfinished, position, finished, Capture, Outcome, stopped,
  tried, head_or_zero, tail,
}
use lua_eclipse_ide.Lua.Pattern.Classes.{
  ClassEnd, malformed, ends_at, class_end, bracket_end, l_esc,
}
use lua_eclipse_ide.Lua.Pattern.Match.{
  is_unfinished, close_last, capture_to_close, set_len, drop_last, or_else,
}

abbrev pub IsReal : PatternError → Type 0
IsReal out_of_fuel = 1 < 0
IsReal _ = Unit {0}

-- A match of a subject of `n` bytes from `s` on ends between `s` and the end, one that fails leaves
-- the captures `cs`, and an error is one of the source.
abbrev pub IsSound : ℕ → List Capture → ℕ → Outcome → Type 0
IsSound n cs s (stopped e) = IsReal e
IsSound n cs s (tried none cs') = cs' ≡ cs
IsSound n cs s (tried (some r) cs') = (s ≤ r) × (r ≤ n)

pub IsSound-later :
    (n : ℕ) (cs : List Capture) (s s' : ℕ) (o : Outcome)
    → s ≤ s'
    → IsSound n cs s' o
    → IsSound n cs s o
IsSound-later n cs s s' (stopped e) le h = h
IsSound-later n cs s s' (tried none cs') le h = h
IsSound-later n cs s s' (tried (some r) cs') le (low, high) = (omega arith, high)

pub or_else-IsSound :
    (n : ℕ) (cs : List Capture) (s : ℕ) (o : Outcome) (f : List Capture → Outcome)
    → IsSound n cs s o
    → IsSound n cs s (f cs)
    → IsSound n cs s (or_else o f)
or_else-IsSound n cs s (stopped e) f h k = h
or_else-IsSound n cs s (tried none cs') f h k = rw h k
or_else-IsSound n cs s (tried (some r) cs') f h k = h

-- Capture lists.
pub drop_last-append : (cs : List Capture) (c : Capture) → drop_last (cs ++ c ∷ []) ≡ cs
drop_last-append [] c = refl
drop_last-append (d ∷ []) c = refl
drop_last-append (d ∷ e ∷ cs) c = rw (drop_last-append (e ∷ cs) c)

unfinished_lem : (x : CaptureLen) → is_unfinished x ≡ true → x ≡ unfinished
unfinished_lem unfinished h = refl
unfinished_lem position h = cc
unfinished_lem (finished n) h = cc

abbrev pub IsOpen : Option Capture → Type 0
IsOpen none = 1 < 0
IsOpen (some c) = is_unfinished c.len ≡ true

abbrev pub IsOpenAt : List Capture → Option ℕ → Type 0
IsOpenAt cs none = Unit {0}
IsOpenAt cs (some l) = IsOpen (get_elem? cs l)

pub set_len-set_len :
    (l : ℕ) (x : CaptureLen) (cs : List Capture)
    → IsOpen (get_elem? cs l)
    → set_len l unfinished (set_len l x cs) ≡ cs
set_len-set_len l x [] h = refl
set_len-set_len zero x (c ∷ cs) h =
    ap (λ len. record c { len = len } ∷ cs) (sym (unfinished_lem c.len h))
set_len-set_len (suc l) x (c ∷ cs) h = rw (set_len-set_len l x cs h)

close_last-IsOpenAt :
    (c : Capture) (cs : List Capture) (o : Option ℕ)
    → IsOpenAt cs o
    → IsOpenAt (c ∷ cs) (close_last c o)
close_last-IsOpenAt c cs (some l) h = h
close_last-IsOpenAt c cs none h =
    split_if (IsOpenAt (c ∷ cs)) (is_unfinished c.len) (some 0) none (λ u. u) λ u. tt

pub capture_to_close-IsOpenAt : (cs : List Capture) → IsOpenAt cs (capture_to_close cs)
unfolding capture_to_close
capture_to_close-IsOpenAt [] = tt
capture_to_close-IsOpenAt (c ∷ cs) =
    close_last-IsOpenAt c cs (capture_to_close cs) (capture_to_close-IsOpenAt cs)

-- An item ends with at most `k` bytes of the pattern left, or is malformed.
abbrev pub EndsWithin : ℕ → ClassEnd → Type 0
EndsWithin k (malformed e) = IsReal e
EndsWithin k (ends_at ep) = length ep ≤ k

pub length-tail : (p : Bytes) → length (tail p) ≤ length p
length-tail [] = omega arith
length-tail (c ∷ p) = omega arith

bracket_end-EndsWithin : (k : ℕ) (p : Bytes) → length p ≤ suc k → EndsWithin k (bracket_end p)
unfolding bracket_end
bracket_end-EndsWithin k [] h = tt
bracket_end-EndsWithin k (c ∷ []) h = tt
bracket_end-EndsWithin k (c ∷ d ∷ p) h =
    let after = bracket_end-EndsWithin k p (omega arith) in
    let next = bracket_end-EndsWithin k (d ∷ p) (omega arith) in
    split_if (EndsWithin k) (c == 0) _ _ (λ e. tt)
      λ e.
        split_if (EndsWithin k) (c == l_esc && not (d == 0)) _ _
          (λ e.
            split_if (EndsWithin k) (head_or_zero p == b']') (ends_at (tail p)) (bracket_end p)
              (λ e. omega (arith, length-tail p)) λ e. after)
          λ e.
            split_if (EndsWithin k) (d == b']') (ends_at p) (bracket_end (d ∷ p)) (λ e. omega arith)
              λ e. next

pub class_end-EndsWithin : (c : ℕ) (p : Bytes) → EndsWithin (length p) (class_end (c ∷ p))
unfolding class_end
class_end-EndsWithin c p =
    split_if (EndsWithin (length p)) (c == l_esc) _ _
      (λ e. split_if (EndsWithin (length p)) (head_or_zero p == 0) _ _ (λ e. tt) λ e. length-tail p)
      λ e.
        split_if (EndsWithin (length p)) (c == b'[') _ _
          (λ e. bracket_end-EndsWithin (length p) _ (
            split_if (λ q. length q ≤ suc (length p)) (head_or_zero p == b'^') (tail p) p
              (λ e. omega (arith, length-tail p)) λ e. omega arith))
          λ e. omega arith
