-- ===== src/Net/Client.antt =====
-- The calls of `Socket` for a client (open-ldb/Socket.cpp), over further calls of the operating system.
use lua_eclipse_ide.Base.{
  ℕ, ◌+◌, ◌-◌, ◌/◌, ◌%◌, Bool, true, false, Bytes, ℤ, pos, negsuc, eq_int, ◌==◌, if◌then◌else◌, ◌≡◌,
  arith, Bool-cases, inl, inr,
}
use lua_eclipse_ide.Net.{is_valid}

-- `resolve` is `inet_pton`, which writes the address, and whether `errno` is `EAFNOSUPPORT` then. A
-- negative number of `get_flags` is its failure.
pub record ClientOs {ℓ} (W : Type ℓ) : Type ℓ where
  pub resolve : Bytes → W → Bool × W
  pub connect : ℤ → Bytes → ℤ → W → ℤ × W
  pub get_flags : ℤ → W → ℤ × W
  pub set_flags : ℤ → ℕ → W → W

-- `O_NONBLOCK` of Linux, one bit.
abbrev pub o_nonblock : ℕ
o_nonblock = 2048

abbrev pub is_non_blocking : ℕ → Bool
is_non_blocking opts = opts / o_nonblock % 2 == 1

-- `opts | O_NONBLOCK`, and `opts & ~O_NONBLOCK`.
abbrev pub new_flags : Bool → ℕ → ℕ
new_flags true opts = if is_non_blocking opts then opts else opts + o_nonblock
new_flags false opts = if is_non_blocking opts then opts - o_nonblock else opts

module _ {ℓ} {W : Type ℓ} (os : ClientOs W) where
  abbrev connected : ℤ × W → Bool × W
  connected (status, w) = (eq_int status (pos 0), w)

  abbrev resolved : ℤ → Bytes → ℤ → Bool × W → Bool × W
  resolved sock host port (true, w) = (false, w)
  resolved sock host port (false, w) = connected (os.connect sock host port w)

  unfoldable pub connect : ℤ → Bytes → ℤ → W → Bool × W
  connect sock host port w =
      if is_valid sock then resolved sock host port (os.resolve host w) else (false, w)

  abbrev with_flags : ℤ → Bool → ℤ × W → W
  with_flags sock b (negsuc n, w) = w
  with_flags sock b (pos opts, w) = os.set_flags sock (new_flags b opts) w

  unfoldable pub set_non_blocking : ℤ → Bool → W → W
  set_non_blocking sock b w = with_flags sock b (os.get_flags sock w)

set_bit : (opts : ℕ) → is_non_blocking opts ≡ false → is_non_blocking (opts + o_nonblock) ≡ true
set_bit opts h = ground arith

clear_bit : (opts : ℕ) → is_non_blocking opts ≡ true → is_non_blocking (opts - o_nonblock) ≡ false
clear_bit opts h = ground arith

-- The flag is as it was asked for.
is_non_blocking-new_flags : (b : Bool) (opts : ℕ) → is_non_blocking (new_flags b opts) ≡ b
is_non_blocking-new_flags true opts = elim (Bool-cases (is_non_blocking opts)) [
  | inl e ↦ rw e e
  | inr e ↦ rw e (set_bit opts e)
]
is_non_blocking-new_flags false opts = elim (Bool-cases (is_non_blocking opts)) [
  | inl e ↦ rw e (clear_bit opts e)
  | inr e ↦ rw e e
]
