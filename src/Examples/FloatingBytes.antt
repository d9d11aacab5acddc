-- ===== src/Examples/FloatingBytes.antt =====
-- Sizes as floating point bytes (open-ldb/lobject.c).
use lua_eclipse_ide.Base.{ℕ, ◌≤◌, ◌≡◌, refl, arith}
use lua_eclipse_ide.Fault.{ok, fault, undefined_int}
use lua_eclipse_ide.Lua.FloatingByte.{
  shift_left, int2fb_loop, int2fb, fb2int, fb2int-int2fb_rounds_up,
}

int2fb_run : int2fb 100 ≡ 37
unfolding int2fb int2fb_loop
int2fb_run = refl

fb2int_run : fb2int 37 ≡ ok 104
unfolding fb2int shift_left
fb2int_run = refl

-- 2 ^ 31 is decoded by a shift that does not fit.
overflow_run : fb2int (int2fb 2147483648) ≡ fault undefined_int
unfolding int2fb int2fb_loop fb2int shift_left
overflow_run = refl

fb2int-int2fb_rounds_up_example : (y : ℕ) × (fb2int (int2fb 100) ≡ ok y) × (100 ≤ y)
fb2int-int2fb_rounds_up_example = fb2int-int2fb_rounds_up 100 (omega arith)
