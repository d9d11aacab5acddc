-- ===== src/Text/Print.antt =====
-- Printing a number and reading it back.
use lua_eclipse_ide.Base.{
  ℕ, zero, suc, ◌+◌, ◌*◌, ◌/◌, ◌%◌, ◌≤◌, ◌<◌, true, false, none, some, [], ◌∷◌, ◌++◌, Bytes, pos,
  ltb, leb, if◌then◌else◌, ◌≡◌, ◌≢◌, refl, sym, ◌∙◌, ap, arith, append_assoc, append-nil, length,
  length-append, Bool-cases, inl, inr, ge→ltb,
}
use lua_eclipse_ide.Text.{
  is_space, is_digit, skip_spaces, digits, signed, atoi, show_fuel, show_nat, max_int, contains,
}

digits-show_fuel :
    (f n : ℕ) (rest : Bytes) → n < f → digits 0 (show_fuel f n ++ rest) ≡ digits n rest
unfolding show_fuel digits
digits-show_fuel zero n rest h = elim h [ ]
digits-show_fuel (suc f) n rest h = elim (Bool-cases (ltb n 10)) [
  | inl small ↦ rw small (ground arith)
  | inr big ↦
      rw (big, append_assoc)
        (digits-show_fuel f (n / 10) ((n % 10 + b'0') ∷ rest) (ground arith) ∙ ground arith)
]

-- Every byte is a decimal digit.
abbrev AllDigits : Bytes → Type 0
AllDigits [] = Unit {0}
AllDigits (c ∷ s) = (is_digit c ≡ true) × AllDigits s

AllDigits-append : (a b : Bytes) → AllDigits a → AllDigits b → AllDigits (a ++ b)
AllDigits-append [] b h k = k
AllDigits-append (c ∷ a) b h k = (h.0, AllDigits-append a b h.1 k)

show_fuel-AllDigits : (f n : ℕ) → AllDigits (show_fuel f n)
unfolding show_fuel
show_fuel-AllDigits zero n = tt
show_fuel-AllDigits (suc f) n = elim (Bool-cases (ltb n 10)) [
  | inl small ↦ rw small (ground arith, tt)
  | inr big ↦ rw big (
      AllDigits-append (show_fuel f (n / 10)) _ (show_fuel-AllDigits f (n / 10)) (ground arith, tt))
]

signed-AllDigits :
    (s : Bytes)
    → AllDigits s
    → signed s ≡ (if leb (digits 0 s) max_int then some (pos (digits 0 s)) else none)
unfolding signed digits
signed-AllDigits [] h = refl
signed-AllDigits (c ∷ s) h = ground arith

skip_spaces-AllDigits : (s : Bytes) → AllDigits s → skip_spaces s ≡ s
unfolding skip_spaces is_space
skip_spaces-AllDigits [] h = refl
skip_spaces-AllDigits (c ∷ s) h = ground arith

digits-show_nat : (n : ℕ) → digits 0 (show_nat n) ≡ n
unfolding show_nat digits
digits-show_nat n =
    ap (digits 0) (sym (append-nil (show_fuel (suc n) n)))
    ∙ digits-show_fuel (suc n) n [] (omega arith)

show_nat-AllDigits : (n : ℕ) → AllDigits (show_nat n)
unfolding show_nat
show_nat-AllDigits n = show_fuel-AllDigits (suc n) n

-- Reading back a printed number that fits an `int` gives that number.
pub atoi-show_nat : (n : ℕ) → n ≤ max_int → atoi (show_nat n) ≡ some (pos n)
unfolding atoi
atoi-show_nat n h =
    rw (skip_spaces-AllDigits (show_nat n) (show_nat-AllDigits n)) (
      rw (signed-AllDigits (show_nat n) (show_nat-AllDigits n)) (rw digits-show_nat (ground arith)))

-- Numbers from `b` on have at least `k` digits.
abbrev LongFrom : ℕ → ℕ → Type 0
LongFrom b k = (f n : ℕ) → n < f → b ≤ n → k ≤ length (show_fuel f n)

LongFrom-ten_times : (b k : ℕ) → 1 ≤ b → LongFrom b k → LongFrom (10 * b) (suc k)
unfolding show_fuel
LongFrom-ten_times b k p ih zero n h g = elim h [ ]
LongFrom-ten_times b k p ih (suc f) n h g =
    rw (ge→ltb n 10 (omega arith)) (
      omega (arith, length-append {0} (show_fuel f (n / 10)) ((n % 10 + b'0') ∷ []), ih f (n / 10)))

LongFrom-one : (b : ℕ) → LongFrom b 1
unfolding show_fuel
LongFrom-one b zero n h g = elim h [ ]
LongFrom-one b (suc f) n h g = elim (Bool-cases (ltb n 10)) [
  | inl small ↦ rw small (omega arith)
  | inr big ↦
      rw big (omega (arith, length-append {0} (show_fuel f (n / 10)) ((n % 10 + b'0') ∷ [])))
]

-- A number from 1000 on has four digits at least.
pub length-show_nat : (n : ℕ) → 1000 ≤ n → 4 ≤ length (show_nat n)
unfolding show_nat
length-show_nat n h =
    LongFrom-ten_times 100 3 (omega arith)
      (LongFrom-ten_times 10 2 (omega arith)
        (LongFrom-ten_times 1 1 (omega arith) (LongFrom-one 1)))
      (suc n) n (omega arith) h

contains-AllDigits : (c : ℕ) (s : Bytes) → is_digit c ≡ false → AllDigits s → contains c s ≡ false
unfolding contains
contains-AllDigits c [] h k = refl
contains-AllDigits c (d ∷ s) h k = ground (arith, contains-AllDigits c s h k.1)

-- A printed number holds no byte but digits, and is not empty.
pub contains-show_nat : (c n : ℕ) → is_digit c ≡ false → contains c (show_nat n) ≡ false
contains-show_nat c n h = contains-AllDigits c (show_nat n) h (show_nat-AllDigits n)

pub show_nat-ne-nil : (n : ℕ) → show_nat n ≢ []
unfolding show_nat
show_nat-ne-nil n e =
    absurd (omega (arith, LongFrom-one 0 (suc n) n (omega arith) (omega arith), ap length e))
