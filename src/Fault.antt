-- ===== src/Fault.antt =====
-- What ends the debugger's process: undefined behaviour of the C++ code in open-ldb/LuaDebugger.cpp,
-- and the exception that nothing on the way catches.
pub mod Buffers
use lua_eclipse_ide.Base.{ℕ, ◌+◌, Bool, ◌≡◌, refl, Bytes, ltb, if◌then◌else◌, ◌++◌, length}

pub data Fault : Type 0 where
  -- a null pointer handed to `strcmp`, `strcat`, `strstr` or `atoi`
  null_pointer : Fault
  -- a write behind the end of a character buffer
  overflow : Fault
  -- a vector read outside its bounds
  out_of_range : Fault
  -- a number that does not fit an `int`
  undefined_int : Fault
  -- a byte of the line buffer that was never written
  indeterminate : Fault
  -- a read through a pointer to the text of a string object that is gone
  dangling_pointer : Fault
  -- a text with a percent sign in it, printed as a format
  bad_format : Fault
  -- a `SocketException` that leaves the hook
  socket_exception : Fault

pub data Result {ℓ} (X : Type ℓ) : Type ℓ where
  fault : Fault → Result X
  ok : X → Result X

infixl 5 ◌>>=◌
abbrev pub ◌>>=◌ {ℓ κ} : {X : Type ℓ} {Y : Type κ} → Result X → (X → Result Y) → Result Y
fault f >>= next = fault f
ok x >>= next = next x

-- `strcat(text, s)` on a buffer of `size` bytes: the terminating zero needs a place too.
unfoldable pub strcat : ℕ → Bytes → Bytes → Result Bytes
strcat size text s = if ltb (length text + length s) size then ok (text ++ s) else fault overflow

-- `sprintf` into a buffer of `size` bytes.
unfoldable pub sprintf : ℕ → Bytes → Result Bytes
sprintf size text = if ltb (length text) size then ok text else fault overflow
