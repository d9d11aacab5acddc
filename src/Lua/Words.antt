-- ===== src/Lua/Words.antt =====
-- Machine words as bytes, the lowest byte first, and the signed values of `int` and `char`
-- (the types that open-ldb/ldump.c and open-ldb/lundump.c copy from and to memory).
use lua_eclipse_ide.Base.{
  ℕ, zero, suc, ◌+◌, ◌-◌, ◌*◌, ◌/◌, ◌%◌, ◌<◌, [], ◌∷◌, ◌≡◌, refl, arith, Bytes, length, ltb,
  if◌then◌else◌, ℤ, pos, negsuc,
}

-- How many values `w` bytes have.
abbrev pub capacity : ℕ → ℕ
capacity zero = 1
capacity (suc w) = 256 * capacity w

-- The lowest `w` bytes of `n` in memory.
unfoldable pub word : ℕ → ℕ → Bytes
word zero n = []
word (suc w) n = n % 256 ∷ word w (n / 256)

unfoldable pub word_value : Bytes → ℕ
word_value [] = 0
word_value (b ∷ s) = b + 256 * word_value s

-- A signed value in two's complement, for words with `c` values, and the way back.
abbrev pub to_word : ℕ → ℤ → ℕ
to_word c (pos n) = n % c
to_word c (negsuc n) = c - 1 - n % c

abbrev pub from_word : ℕ → ℕ → ℤ
from_word c n = if ltb (n + n) c then pos n else negsuc (c - 1 - n)

abbrev pub int_values : ℕ
int_values = 4294967296

-- An `int`, and one that is not negative.
abbrev pub IsInt : ℤ → Type 0
IsInt (pos n) = n < 2147483648
IsInt (negsuc n) = n < 2147483648

abbrev pub IsCount : ℤ → Type 0
IsCount (pos n) = n < 2147483648
IsCount (negsuc n) = n < 0

abbrev pub IsChar : ℤ → Type 0
IsChar (pos n) = n < 128
IsChar (negsuc n) = n < 128

pub length-word : (w n : ℕ) → length (word w n) ≡ w
unfolding word
length-word zero n = refl
length-word (suc w) n = omega (arith, length-word w (n / 256))

pub word_value-word : (w n : ℕ) → n < capacity w → word_value (word w n) ≡ n
unfolding word word_value
word_value-word zero n h = omega arith
word_value-word (suc w) n h =
    let below : n / 256 < capacity w = omega arith in
    omega (arith, word_value-word w (n / 256) below)

pub from_word-to_word : (z : ℤ) → IsInt z → from_word int_values (to_word int_values z) ≡ z
from_word-to_word (pos n) h = ground arith
from_word-to_word (negsuc n) h = ground arith

pub from_word-to_word_char : (z : ℤ) → IsChar z → from_word 256 (to_word 256 z) ≡ z
from_word-to_word_char (pos n) h = ground arith
from_word-to_word_char (negsuc n) h = ground arith

pub to_word-below : (z : ℤ) → to_word int_values z < capacity 4
to_word-below (pos n) = omega arith
to_word-below (negsuc n) = omega arith
