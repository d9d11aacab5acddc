-- ===== src/Lua/Pattern/Match.antt =====
-- The matcher (open-ldb/lstrlib.c). Every call of `match` inside `match` has a shorter pattern, so
-- that its length plus one is enough fuel.
use lua_eclipse_ide.Base.{
  ℕ, zero, suc, ◌+◌, ◌-◌, Bool, true, false, not, ◌&&◌, ◌||◌, List, [], ◌∷◌, ◌++◌, Bytes, Option,
  none, some, length, take, drop, get_elem?, leb, ltb, ◌==◌, if◌then◌else◌, eq_bytes,
}
use lua_eclipse_ide.Lua.Pattern.{
  invalid_capture_index, invalid_pattern_capture, unbalanced_pattern, too_many_captures,
  missing_set_after_f, out_of_fuel, CaptureLen, unfinished, position, finished, Capture, Outcome,
  stopped, tried, head_or_zero, tail, char_at,
}
use lua_eclipse_ide.Lua.Pattern.Classes.{
  l_esc, is_digit, match_bracket_class, set_body, ClassEnd, malformed, ends_at, class_end,
  single_match,
}

abbrev pub max_captures : ℕ
max_captures = 32

abbrev pub is_unfinished : CaptureLen → Bool
is_unfinished unfinished = true
is_unfinished _ = false

abbrev pub close_last : Capture → Option ℕ → Option ℕ
close_last c (some l) = some (suc l)
close_last c none = if is_unfinished c.len then some 0 else none

-- The last capture that is not finished.
unfoldable pub capture_to_close : List Capture → Option ℕ
capture_to_close [] = none
capture_to_close (c ∷ cs) = close_last c (capture_to_close cs)

abbrev pub set_len : ℕ → CaptureLen → List Capture → List Capture
set_len l len [] = []
set_len zero len (c ∷ cs) = record c { len = len } ∷ cs
set_len (suc l) len (c ∷ cs) = c ∷ set_len l len cs

abbrev pub drop_last : List Capture → List Capture
drop_last [] = []
drop_last (c ∷ []) = []
drop_last (c ∷ d ∷ cs) = c ∷ drop_last (d ∷ cs)

abbrev pub or_else : Outcome → (List Capture → Outcome) → Outcome
or_else (stopped e) f = stopped e
or_else (tried (some r) cs) f = tried (some r) cs
or_else (tried none cs) f = f cs

abbrev pub undo_start : Outcome → Outcome
undo_start (stopped e) = stopped e
undo_start (tried none cs) = tried none (drop_last cs)
undo_start (tried (some r) cs) = tried (some r) cs

abbrev pub undo_end : ℕ → Outcome → Outcome
undo_end l (stopped e) = stopped e
undo_end l (tried none cs) = tried none (set_len l unfinished cs)
undo_end l (tried (some r) cs) = tried (some r) cs

abbrev pub init_of : Option Capture → ℕ
init_of none = 0
init_of (some c) = c.init

module _ (src : Bytes) where
  -- `n` bytes are left from `s` on; `cont` is the depth.
  unfoldable pub balance_loop : ℕ → ℕ → ℕ → ℕ → ℕ → Option ℕ
  balance_loop zero s b e cont = none
  balance_loop (suc n) s b e cont =
      let closed = balance_loop n (s + 1) b e (cont - 1) in
      let opened = balance_loop n (s + 1) b e (cont + 1) in
      let other = balance_loop n (s + 1) b e cont in
      if char_at src s == e
      then if cont == 1 then some (s + 1) else closed
      else if char_at src s == b
      then opened
      else other

  -- The two delimiters are not zero here.
  unfoldable pub match_balance : ℕ → ℕ → ℕ → Option ℕ
  match_balance s b e =
      if char_at src s == b then balance_loop (length src - (s + 1)) (s + 1) b e 1 else none

  -- `s < src_end && singlematch(*s, p, ep)`
  unfoldable pub item_matches : ℕ → Bytes → Bytes → Bool
  item_matches s p ep = ltb s (length src) && single_match (char_at src s) p ep

  -- The first loop of `max_expand`: how many bytes from `s` on match the item, `n` at most.
  unfoldable pub count_items : ℕ → ℕ → Bytes → Bytes → ℕ
  count_items zero s p ep = 0
  count_items (suc n) s p ep =
      let more = count_items n (s + 1) p ep in if item_matches s p ep then suc more else 0

  -- The place behind the text of a capture, if it stands at `s`; a position capture has the length
  -- -2, which as a `size_t` is more than is left.
  abbrev pub same_text : CaptureLen → ℕ → ℕ → Option ℕ
  same_text (finished len) init s =
      if leb len (length src - s) && eq_bytes (take len (drop init src)) (take len (drop s src))
      then some (s + len)
      else none
  same_text _ init s = none

  -- `next cs s` is `match(ms, s, ep + 1)`.
  module _ (next : List Capture → ℕ → Outcome) where
    -- The second loop of `max_expand`.
    unfoldable pub max_try : ℕ → List Capture → ℕ → Outcome
    max_try zero cs s = next cs s
    max_try (suc i) cs s = or_else (next cs (s + suc i)) λ cs'. max_try i cs' s

    unfoldable pub max_expand : List Capture → ℕ → Bytes → Bytes → Outcome
    max_expand cs s p ep = max_try (count_items (length src - s) s p ep) cs s

    -- `n` bytes are left from `s` on.
    unfoldable pub min_expand : ℕ → List Capture → ℕ → Bytes → Bytes → Outcome
    min_expand zero cs s p ep = next cs s
    min_expand (suc n) cs s p ep = or_else (next cs s) λ cs'.
        let more = min_expand n cs' (s + 1) p ep in
        if item_matches s p ep then more else tried none cs'

    -- Here `next cs s` is `match(ms, s, p)`.
    unfoldable pub start_capture : List Capture → ℕ → CaptureLen → Outcome
    start_capture cs s what =
        if leb max_captures (length cs)
        then stopped too_many_captures
        else undo_start (next (cs ++ record { init = s; len = what } ∷ []) s)

    abbrev pub close_at : Option ℕ → List Capture → ℕ → Outcome
    close_at none cs s = stopped invalid_pattern_capture
    close_at (some l) cs s =
        undo_end l (next (set_len l (finished (s - init_of (get_elem? cs l))) cs) s)

    unfoldable pub end_capture : List Capture → ℕ → Outcome
    end_capture cs s = close_at (capture_to_close cs) cs s

    abbrev pub go_on : List Capture → Option ℕ → Outcome
    go_on cs none = tried none cs
    go_on cs (some s) = next cs s

    abbrev pub capture_found : List Capture → ℕ → Option Capture → Outcome
    capture_found cs s none = stopped invalid_capture_index
    capture_found cs s (some c) =
        if is_unfinished c.len
        then stopped invalid_capture_index
        else go_on cs (same_text c.len c.init s)

    -- `%1` to `%9`; `%0` is an error.
    unfoldable pub match_capture : List Capture → ℕ → ℕ → Outcome
    match_capture cs s digit =
        if digit == b'0'
        then stopped invalid_capture_index
        else capture_found cs s (get_elem? cs (digit - b'1'))

  abbrev pub previous : ℕ → ℕ
  previous zero = 0
  previous (suc i) = char_at src i

  module _ (go : List Capture → ℕ → Bytes → Outcome) where
    -- The repetition behind an item that ends at `ep`.
    abbrev pub match_repeated : List Capture → ℕ → Bytes → Bytes → Outcome
    match_repeated cs s p ep =
        let m = item_matches s p ep in
        let r = head_or_zero ep in
        let next = λ (cs' : List Capture) (s' : ℕ). go cs' s' (tail ep) in
        if r == b'?'
        then (if m then or_else (next cs (s + 1)) (λ cs'. next cs' s) else next cs s)
        else if r == b'*'
        then max_expand next cs s p ep
        else if r == b'+'
        then (if m then max_expand next cs (s + 1) p ep else tried none cs)
        else if r == b'-'
        then min_expand next (length src - s) cs s p ep
        else if m
        then go cs (s + 1) ep
        else tried none cs

    abbrev pub match_item : List Capture → ℕ → Bytes → ClassEnd → Outcome
    match_item cs s p (malformed e) = stopped e
    match_item cs s p (ends_at ep) = match_repeated cs s p ep

    abbrev pub match_balanced : List Capture → ℕ → Bytes → Outcome
    match_balanced cs s (b ∷ e ∷ p) =
        if b == 0 || e == 0
        then stopped unbalanced_pattern
        else go_on (λ cs' s'. go cs' s' p) cs (match_balance s b e)
    match_balanced cs s _ = stopped unbalanced_pattern

    abbrev pub at_frontier : List Capture → ℕ → Bytes → ClassEnd → Outcome
    at_frontier cs s p (malformed e) = stopped e
    at_frontier cs s p (ends_at ep) =
        if match_bracket_class (previous s) (set_body p ep)
          || not (match_bracket_class (char_at src s) (set_body p ep))
        then tried none cs
        else go cs s ep

    abbrev pub match_frontier : List Capture → ℕ → Bytes → Outcome
    match_frontier cs s p =
        if head_or_zero p == b'['
        then at_frontier cs s p (class_end p)
        else stopped missing_set_after_f

    abbrev pub match_escape : List Capture → ℕ → Bytes → Outcome
    match_escape cs s p =
        let x = head_or_zero (tail p) in
        let rest = tail (tail p) in
        if x == b'b'
        then match_balanced cs s rest
        else if x == b'f'
        then match_frontier cs s rest
        else if is_digit x
        then match_capture (λ cs' s'. go cs' s' rest) cs s x
        else match_item cs s p (class_end p)

    abbrev pub match_start : List Capture → ℕ → Bytes → Outcome
    match_start cs s p =
        if head_or_zero p == b')'
        then start_capture (λ cs' s'. go cs' s' (tail p)) cs s position
        else start_capture (λ cs' s'. go cs' s' p) cs s unfinished

    -- One round of the switch of `match` on the pattern `c ∷ p`.
    unfoldable pub match_switch : List Capture → ℕ → ℕ → Bytes → Outcome
    match_switch cs s c p =
        if c == b'('
        then match_start cs s p
        else if c == b')'
        then end_capture (λ cs' s'. go cs' s' p) cs s
        else if c == l_esc
        then match_escape cs s (c ∷ p)
        else if c == 0
        then tried (some s) cs
        else if c == b'$' && head_or_zero p == 0
        then (if s == length src then tried (some s) cs else tried none cs)
        else match_item cs s (c ∷ p) (class_end (c ∷ p))

  unfoldable pub match : ℕ → List Capture → ℕ → Bytes → Outcome
  match zero cs s p = stopped out_of_fuel
  match (suc fuel) cs s [] = tried (some s) cs
  match (suc fuel) cs s (c ∷ p) = match_switch (match fuel) cs s c p
