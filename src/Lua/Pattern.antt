-- ===== src/Lua/Pattern.antt =====
-- Patterns (open-ldb/lstrlib.c). A pattern is the bytes that are left of it, with a zero behind
-- the end; a place in the subject is its index. The captures are a list, the oldest first, as long
-- as `level` says.
pub mod Classes
pub mod Match
pub mod Sound
pub mod Steps
pub mod Switch
pub mod Find
pub mod Plain
pub mod Text
use lua_eclipse_ide.Base.{ℕ, suc, List, [], ◌∷◌, Bytes, Option, none, some, get_elem?}

-- `out_of_fuel` is no error of the source.
pub data PatternError : Type 0 where
  invalid_capture_index invalid_pattern_capture : PatternError
  ends_with_percent missing_bracket unbalanced_pattern : PatternError
  too_many_captures missing_set_after_f out_of_fuel : PatternError

pub data CaptureLen : Type 0 where
  unfinished : CaptureLen
  position : CaptureLen
  finished : ℕ → CaptureLen

pub record Capture : Type 0 where
  pub init : ℕ
  pub len : CaptureLen

-- What `match` gives: an error, or the place where the match ends, `none` for a null pointer, and
-- the captures then.
pub data Outcome : Type 0 where
  stopped : PatternError → Outcome
  tried : Option ℕ → List Capture → Outcome

-- `*p`
abbrev pub head_or_zero : Bytes → ℕ
head_or_zero [] = 0
head_or_zero (c ∷ p) = c

-- `p + 1`
abbrev pub tail : Bytes → Bytes
tail [] = []
tail (c ∷ p) = p

abbrev pub or_zero : Option ℕ → ℕ
or_zero none = 0
or_zero (some c) = c

-- `*s` at the index `i`, the zero behind the end included.
abbrev pub char_at : Bytes → ℕ → ℕ
char_at src i = or_zero (get_elem? src i)
