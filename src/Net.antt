-- ===== src/Net.antt =====
-- Sockets (open-ldb/Socket.cpp, open-ldb/ServerSocket.cpp) over the operating system, which is a
-- parameter: a record of the calls that the source makes, each on the state of the system.
pub mod Server
pub mod Held
pub mod Client
use lua_eclipse_ide.Base.{
  ℕ, ◌+◌, Bool, true, false, List, [], ◌∷◌, Bytes, codes, ℤ, pos, negsuc, eq_int, ltb_int, not,
  take, length, if◌then◌else◌, Option, none, some,
}
use lua_eclipse_ide.LuaView.{c_str}

-- Each call gives what the C function returns; `recv` also the bytes that it put into the buffer.
pub record Os {ℓ} (W : Type ℓ) : Type ℓ where
  pub socket : W → ℤ × W
  pub reuse_address : ℤ → W → ℤ × W
  pub bind : ℤ → ℤ → W → ℤ × W
  pub listen : ℤ → ℕ → W → ℤ × W
  pub accept : ℤ → W → ℤ × W
  pub send : ℤ → Bytes → W → ℤ × W
  pub recv : ℤ → ℕ → W → ℤ × Bytes × W
  pub close : ℤ → W → W

abbrev pub invalid : ℤ
invalid = negsuc 0

abbrev pub max_connections : ℕ
max_connections = 5

abbrev pub max_recv : ℕ
max_recv = 500

-- A `Socket` object is its descriptor `m_sock`; the address in it is only handed to the system.
abbrev pub is_valid : ℤ → Bool
is_valid sock = not (eq_int sock invalid)

module _ {ℓ} {W : Type ℓ} (os : Os W) where
  -- `Socket::~Socket`
  unfoldable pub destroy : ℤ → W → W
  destroy sock w = if is_valid sock then os.close sock w else w

  -- Whether the call succeeded, the descriptor then, and the system.
  abbrev pub with_option : ℤ × W → Bool × ℤ × W
  with_option (sock, w) =
      if is_valid sock
      then (not (eq_int (os.reuse_address sock w).0 invalid), sock, (os.reuse_address sock w).1)
      else (false, sock, w)

  unfoldable pub create : W → Bool × ℤ × W
  create w = with_option (os.socket w)

  abbrev pub succeeded : ℤ × W → Bool × W
  succeeded (result, w) = (not (eq_int result invalid), w)

  unfoldable pub bind : ℤ → ℤ → W → Bool × W
  bind sock port w = if is_valid sock then succeeded (os.bind sock port w) else (false, w)

  unfoldable pub listen : ℤ → W → Bool × W
  listen sock w = if is_valid sock then succeeded (os.listen sock max_connections w) else (false, w)

  abbrev pub accepted : ℤ × W → Bool × ℤ × W
  accepted (new_sock, w) = (ltb_int (pos 0) new_sock, new_sock, w)

  -- The second component is `new_socket.m_sock`, which is set whatever `accept` gives.
  unfoldable pub accept : ℤ → W → Bool × ℤ × W
  accept sock w = accepted (os.accept sock w)

  unfoldable pub send : ℤ → Bytes → W → Bool × W
  send sock text w = succeeded (os.send sock text w)

  -- The buffer has one byte more than is asked for, and that byte is zero.
  abbrev pub received : ℤ × Bytes × W → ℤ × Bytes × W
  received (status, bytes, w) =
      if eq_int status invalid
      then (pos 0, [], w)
      else if eq_int status (pos 0)
      then (pos 0, [], w)
      else (status, c_str (take max_recv bytes), w)

  unfoldable pub recv : ℤ → W → ℤ × Bytes × W
  recv sock w = received (os.recv sock max_recv w)
