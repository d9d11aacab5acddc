-- ===== src/Lua/FloatingByte.antt =====
-- The "floating point byte" in which the sizes of a new table are coded: `luaO_int2fb` and
-- `luaO_fb2int` of open-ldb/lobject.c. An `unsigned int` has 32 bits, and a number below 2 ^ 32 - 1
-- is below 16 after 29 halvings; an `int` has 32 bits too, and a shift out of it is undefined.
use lua_eclipse_ide.Fault.{Result, ok, fault, undefined_int}
use lua_eclipse_ide.Base.{
  leb, true, sym, split_if, ℕ, zero, suc, ◌+◌, ◌-◌, ◌*◌, ◌/◌, ◌%◌, ◌<◌, ◌≤◌, ◌≡◌, ◌⊎◌, inl, inr,
  refl, Bool-cases, ltb, ◌==◌, if◌then◌else◌, arith, false, ltb→lt, ltb→ge, ge→ltb, ap, ◌∙◌, ◌^◌,
}

-- `y << e`
unfoldable pub shift_left : ℕ → ℕ → ℕ
shift_left zero y = y
shift_left (suc e) y = 2 * shift_left e y

abbrev pub uint_values : ℕ
uint_values = 4294967296

-- `(x + 1) >> 1`, where the sum wraps round.
abbrev pub half_up : ℕ → ℕ
half_up x = (x + 1) % uint_values / 2

-- The loop: the number below 16 and the exponent.
unfoldable pub int2fb_loop : ℕ → ℕ → ℕ → ℕ × ℕ
int2fb_loop zero x e = (x, e)
int2fb_loop (suc fuel) x e =
    let further = int2fb_loop fuel (half_up x) (suc e) in if ltb x 16 then (x, e) else further

-- The two halves of the byte do not overlap, so that `|` is a sum.
abbrev pub float_byte : ℕ × ℕ → ℕ
float_byte (x, e) = if ltb x 8 then x else (e + 1) * 8 + (x - 8)

unfoldable pub int2fb : ℕ → ℕ
int2fb x = float_byte (int2fb_loop 29 x 0)

abbrev pub int_max : ℕ
int_max = 2147483647

-- `((x & 7) + 8) << (e - 1)`, of type `int`.
abbrev pub int_shift : ℕ → ℕ → Result ℕ
int_shift e y = if leb (shift_left e y) int_max then ok (shift_left e y) else fault undefined_int

unfoldable pub fb2int : ℕ → Result ℕ
fb2int x = let e = x / 8 % 32 in if e == 0 then ok x else int_shift (e - 1) (x % 8 + 8)

shift_left_mono : (e y z : ℕ) → y ≤ z → shift_left e y ≤ shift_left e z
unfolding shift_left
shift_left_mono zero y z h = h
shift_left_mono (suc e) y z h = omega (arith, shift_left_mono e y z h)

shift_left_double : (e y : ℕ) → shift_left e (2 * y) ≡ shift_left (suc e) y
unfolding shift_left
shift_left_double zero y = refl
shift_left_double (suc e) y = rw (shift_left_double e y, shift_left)

-- What the loop ends with: a number below 16 that is at least 8 if anything was shifted out, and no
-- less than before.
abbrev IsRounded : ℕ → ℕ → ℕ → ℕ × ℕ → Type 0
IsRounded fuel x e (x', e') =
    (x' < 16)
    × (((e' ≡ e) × (x' ≡ x)) ⊎ (8 ≤ x'))
    × (e' ≤ e + fuel)
    × (shift_left e x ≤ shift_left e' x')

at_least_8 :
    (x e x' e' : ℕ)
    → 16 ≤ x
    → x + 1 < uint_values
    → ((e' ≡ suc e) × (x' ≡ half_up x)) ⊎ (8 ≤ x')
    → 8 ≤ x'
at_least_8 x e x' e' big fits (inl (same_e, same_x)) = omega arith
at_least_8 x e x' e' big fits (inr h) = h

IsRounded-half_up :
    (fuel x e : ℕ) (r : ℕ × ℕ)
    → 16 ≤ x
    → x + 1 < uint_values
    → IsRounded fuel (half_up x) (suc e) r
    → IsRounded (suc fuel) x e r
IsRounded-half_up fuel x e (x', e') big fits (low, high, few, up) =
    let half : x ≤ 2 * half_up x = omega arith in
    let wider = shift_left_mono e x (2 * half_up x) half in
    (
      low,
      inr (at_least_8 x e x' e' big fits high),
      omega arith,
      omega (arith, up, wider, shift_left_double e (half_up x)),
    )

int2fb_loop-IsRounded :
    (fuel b x e : ℕ)
    → b ≤ fuel
    → x + 1 < uint_values
    → x ≤ shift_left b 15
    → IsRounded b x e (int2fb_loop fuel x e)
unfolding int2fb_loop shift_left
int2fb_loop-IsRounded zero zero x e few fits h =
    (omega arith, inl (refl, refl), omega arith, omega arith)
int2fb_loop-IsRounded zero (suc b) x e few fits h = absurd (omega arith)
int2fb_loop-IsRounded (suc fuel) zero x e few fits h =
    split_if (IsRounded zero x e) (ltb x 16) (x, e) (int2fb_loop fuel (half_up x) (suc e))
      (λ l. (ltb→lt x 16 l, inl (refl, refl), omega arith, omega arith))
      λ l. absurd (omega (arith, ltb→ge x 16 l))
int2fb_loop-IsRounded (suc fuel) (suc b) x e few fits h =
    split_if (IsRounded (suc b) x e) (ltb x 16) (x, e) (int2fb_loop fuel (half_up x) (suc e))
      (λ l. (ltb→lt x 16 l, inl (refl, refl), omega arith, omega arith))
      λ l.
        IsRounded-half_up b x e _ (ltb→ge x 16 l) fits (
          int2fb_loop-IsRounded fuel b (half_up x) (suc e) (omega arith) (omega arith)
            (omega arith))

shift_left_grows : (e y : ℕ) → y ≤ shift_left e y
unfolding shift_left
shift_left_grows zero y = omega arith
shift_left_grows (suc e) y = omega (arith, shift_left_grows e y)

shift_left_more : (e f y : ℕ) → e ≤ f → shift_left e y ≤ shift_left f y
unfolding shift_left
shift_left_more zero f y h = shift_left_grows f y
shift_left_more (suc e) zero y h = absurd (omega arith)
shift_left_more (suc e) (suc f) y h = omega (arith, shift_left_more e f y (omega arith))

-- The byte gives an `int` that is not below `x`.
RoundsUp : ℕ → ℕ → Type 0
RoundsUp x c = (y : ℕ) × (fb2int c ≡ ok y) × (x ≤ y)

RoundsUp-small : (x : ℕ) → x < 8 → RoundsUp x x
unfolding fb2int RoundsUp
RoundsUp-small x h = let none : x / 8 % 32 ≡ 0 = omega arith in (x, rw none refl, omega arith)

fb2int_exponent : (c e : ℕ) → c / 8 % 32 ≡ suc e → fb2int c ≡ int_shift e (c % 8 + 8)
unfolding fb2int
fb2int_exponent c e h =
    let less : suc e - 1 ≡ e = omega arith in
    let positive : (suc e == 0) ≡ false = ground arith in rw (h, positive, less)

int_shift_fits : (e y : ℕ) → shift_left e y ≤ int_max → int_shift e y ≡ ok (shift_left e y)
int_shift_fits e y h = let fits : leb (shift_left e y) int_max ≡ true = ground arith in rw fits refl

fits_int : (e y : ℕ) → e ≤ 27 → y < 16 → shift_left e y ≤ int_max
fits_int e y few low =
    let wider : shift_left e y ≤ shift_left e 15 = shift_left_mono e y 15 (omega arith) in
    let longer : shift_left e 15 ≤ shift_left 27 15 = shift_left_more e 27 15 few in
    let top : shift_left 27 15 ≤ int_max = unfold shift_left in omega arith in
    omega (arith, wider, longer, top)

RoundsUp-large :
    (x x' e' : ℕ)
    → 8 ≤ x'
    → x' < 16
    → e' ≤ 27
    → x ≤ shift_left e' x'
    → RoundsUp x (float_byte (x', e'))
unfolding RoundsUp
RoundsUp-large x x' e' high low few up =
    let c = (e' + 1) * 8 + (x' - 8) in
    let digits : c % 8 + 8 ≡ x' = omega arith in
    rw (ge→ltb x' 8 high) (
      shift_left e' x',
      fb2int_exponent c e' (omega arith)
          ∙ ap (int_shift e') digits
          ∙ int_shift_fits e' x' (fits_int e' x' few low),
      up,
    )

RoundsUp-float_byte : (x : ℕ) (r : ℕ × ℕ) → IsRounded 27 x 0 r → RoundsUp x (float_byte r)
unfolding shift_left
RoundsUp-float_byte x (x', e') (low, inr high, bound, up) =
    RoundsUp-large x x' e' high low (omega arith) up
RoundsUp-float_byte x (x', e') (low, inl (same_e, same_x), bound, up) =
    elim (Bool-cases (ltb x' 8)) [
      | inl l ↦ rw (l, sym same_x) (RoundsUp-small x' (ltb→lt x' 8 l))
      | inr l ↦ RoundsUp-large x x' e' (ltb→ge x' 8 l) low (omega arith) up
    ]

-- A size up to 15 * 2 ^ 27, the largest number that a byte stands for below 2 ^ 31, is rounded up:
-- what is decoded is an `int` that is no less than the size that was coded.
pub fb2int-int2fb_rounds_up :
    (x : ℕ) → x ≤ 15 * 2 ^ 27 → (y : ℕ) × (fb2int (int2fb x) ≡ ok y) × (x ≤ y)
unfolding int2fb shift_left RoundsUp
fb2int-int2fb_rounds_up x h =
    RoundsUp-float_byte x _
      (int2fb_loop-IsRounded 29 27 x 0 (omega arith) (omega arith) (omega arith))
