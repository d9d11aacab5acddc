-- ===== src/Text.antt =====
-- The C library's functions on NUL-terminated texts that the debugger calls, as functions on lists
-- of byte values with no zero in them: `strstr` used as a prefix test, `strchr` used to cut a text,
-- `strtok(_, " ")`, `atoi`, and `%i` and `%.63s` of `printf`.
pub mod Print
pub mod Tokens
use lua_eclipse_ide.Base.{
  ℕ, zero, suc, ◌+◌, ◌-◌, ◌*◌, ◌/◌, ◌%◌, Bool, true, false, ◌&&◌, ◌||◌, Option, none, some, [], ◌∷◌,
  ◌++◌, Bytes, ℤ, pos, negsuc, ltb, leb, ◌==◌, if◌then◌else◌,
}

-- `strstr(s, word) == s`: the text begins with the word.
unfoldable pub starts_with : Bytes → Bytes → Bool
starts_with [] s = true
starts_with (c ∷ word) [] = false
starts_with (c ∷ word) (d ∷ s) = c == d && starts_with word s

-- `if ((p = strchr(s, c)) != NULL) *p = '\0'`.
unfoldable pub cut_at : ℕ → Bytes → Bytes
cut_at c [] = []
cut_at c (d ∷ s) = if d == c then [] else d ∷ cut_at c s

-- `strchr(s, c) != NULL`, and `find(c) != npos`.
unfoldable pub contains : ℕ → Bytes → Bool
contains c [] = false
contains c (d ∷ s) = d == c || contains c s

-- What `strtok(_, " ")` skips, the word that it then reads, and what it leaves for the next call.
pub skip_blanks : Bytes → Bytes
skip_blanks [] = []
skip_blanks (d ∷ s) = if d == b' ' then skip_blanks s else d ∷ s

pub word : Bytes → Bytes
word [] = []
word (d ∷ s) = if d == b' ' then [] else d ∷ word s

pub after_word : Bytes → Bytes
after_word [] = []
after_word (d ∷ s) = if d == b' ' then s else after_word s

-- `none` is the null pointer: there is no word left.
abbrev pub token_of : Bytes → Option (Bytes × Bytes)
token_of [] = none
token_of (c ∷ s) = some (word (c ∷ s), after_word (c ∷ s))

unfoldable pub strtok : Bytes → Option (Bytes × Bytes)
unfolding skip_blanks word after_word
strtok s = token_of (skip_blanks s)

pub is_space : ℕ → Bool
is_space c = c == 32 || (leb 9 c && leb c 13)

abbrev pub is_digit : ℕ → Bool
is_digit c = leb b'0' c && leb c b'9'

pub skip_spaces : Bytes → Bytes
skip_spaces [] = []
skip_spaces (c ∷ s) = if is_space c then skip_spaces s else c ∷ s

-- The number that the digits at the front spell, after those read so far.
pub digits : ℕ → Bytes → ℕ
digits n [] = n
digits n (c ∷ s) = if is_digit c then digits (n * 10 + (c - b'0')) s else n

abbrev pub max_int : ℕ
max_int = 2147483647

-- `none`: the number does not fit an `int`, and the C standard leaves `atoi` undefined.
abbrev pub to_int : Bool → ℕ → Option ℤ
to_int false n = if leb n max_int then some (pos n) else none
to_int true zero = some (pos 0)
to_int true (suc n) = if leb n max_int then some (negsuc n) else none

pub signed : Bytes → Option ℤ
signed [] = some (pos 0)
signed (c ∷ s) =
    if c == b'-'
    then to_int true (digits 0 s)
    else if c == b'+'
    then to_int false (digits 0 s)
    else to_int false (digits 0 (c ∷ s))

unfoldable pub atoi : Bytes → Option ℤ
unfolding skip_spaces is_space signed digits
atoi s = signed (skip_spaces s)

-- `%i` of a number: its decimal digits, with as much fuel as the number itself.
pub show_fuel : ℕ → ℕ → Bytes
show_fuel zero n = []
show_fuel (suc f) n =
    let more = show_fuel f (n / 10) ++ (n % 10 + b'0') ∷ [] in
    if ltb n 10 then (n + b'0') ∷ [] else more

unfoldable pub show_nat : ℕ → Bytes
unfolding show_fuel
show_nat n = show_fuel (suc n) n

unfoldable pub show_int : ℤ → Bytes
unfolding show_nat
show_int (pos n) = show_nat n
show_int (negsuc n) = b'-' ∷ show_nat (suc n)

-- `%.63s`: at most so many bytes of a text.
unfoldable pub take_bytes : ℕ → Bytes → Bytes
take_bytes zero s = []
take_bytes (suc n) [] = []
take_bytes (suc n) (c ∷ s) = c ∷ take_bytes n s
