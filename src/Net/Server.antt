-- ===== src/Net/Server.antt =====
-- `ServerSocket` (open-ldb/ServerSocket.cpp), where a call that fails throws, and the two blocks of
-- `main` (open-ldb/LuaDebugger.cpp) that wait for the environment.
use lua_eclipse_ide.Base.{Bool, true, false, Bytes, codes, ℤ, pos, eq_int, if◌then◌else◌}
use lua_eclipse_ide.Net.{Os, invalid, destroy, create, bind, listen, accept, send, recv}

-- A `SocketException` with its description, or the value.
pub data Thrown {ℓ} (A : Type ℓ) : Type ℓ where
  throws : Bytes → Thrown A
  returns : A → Thrown A

module _ {ℓ} {W : Type ℓ} (os : Os W) where
  -- The constructor with a port. Where it throws, the base object is destroyed.
  abbrev pub after_listen : ℤ → Bool × W → Thrown ℤ × W
  after_listen sock (true, w) = (returns sock, w)
  after_listen sock (false, w) = (throws (codes "Could not listen to socket."), destroy os sock w)

  abbrev pub after_bind : ℤ → Bool × W → Thrown ℤ × W
  after_bind sock (true, w) = after_listen sock (listen os sock w)
  after_bind sock (false, w) = (throws (codes "Could not bind to port."), destroy os sock w)

  abbrev pub after_create : ℤ → Bool × ℤ × W → Thrown ℤ × W
  after_create port (true, sock, w) = after_bind sock (bind os sock port w)
  after_create port (false, sock, w) =
      (throws (codes "Could not create server socket."), destroy os sock w)

  unfoldable pub server_socket : ℤ → W → Thrown ℤ × W
  server_socket port w = after_create port (create os w)

  abbrev pub wrote : Bool × W → Thrown (Unit {0}) × W
  wrote (true, w) = (returns tt, w)
  wrote (false, w) = (throws (codes "Could not write to socket."), w)

  unfoldable pub write : ℤ → Bytes → W → Thrown (Unit {0}) × W
  write sock text w = wrote (send os sock text w)

  abbrev pub was_read : ℤ × Bytes × W → Thrown Bytes × W
  was_read (status, text, w) =
      if eq_int status (pos 0)
      then (throws (codes "Could not read from socket."), w)
      else (returns text, w)

  unfoldable pub read : ℤ → W → Thrown Bytes × W
  read sock w = was_read (recv os sock w)

  -- A block of `main`: `{ ServerSocket server(port); server.accept(new_socket); }`. The result is
  -- the exception that is caught, `new_socket.m_sock` then, and the system once `server` is destroyed.
  abbrev pub after_accept : ℤ → Bool × ℤ × W → Thrown (Unit {0}) × ℤ × W
  after_accept server (true, new_sock, w) = (returns tt, new_sock, destroy os server w)
  after_accept server (false, new_sock, w) =
      (throws (codes "Could not accept socket."), new_sock, destroy os server w)

  abbrev pub with_server : Thrown ℤ × W → Thrown (Unit {0}) × ℤ × W
  with_server (throws why, w) = (throws why, invalid, w)
  with_server (returns server, w) = after_accept server (accept os server w)

  -- `new_socket` is a global variable that holds no descriptor yet.
  unfoldable pub open_connection : ℤ → W → Thrown (Unit {0}) × ℤ × W
  open_connection port w = with_server (server_socket port w)

  -- The start of a session for the IDE: the command socket, the event socket, and the event
  -- "started". The results are the exceptions that were caught on the way, the two descriptors, and
  -- the system.
  pub record Started : Type ℓ where
    pub command_error : Thrown (Unit {0})
    pub event_error : Thrown (Unit {0})
    pub started_error : Thrown (Unit {0})
    pub command_socket : ℤ
    pub event_socket : ℤ
    pub system : W

  abbrev pub announced :
      Thrown (Unit {0}) × ℤ → Thrown (Unit {0}) × ℤ → Thrown (Unit {0}) × W → Started
  announced (e1, c1) (e2, c2) (e3, w) = record {
    command_error = e1;
    event_error = e2;
    started_error = e3;
    command_socket = c1;
    event_socket = c2;
    system = w;
  }

  abbrev pub with_events : Thrown (Unit {0}) × ℤ → Thrown (Unit {0}) × ℤ × W → Started
  with_events first (e2, c2, w) = announced first (e2, c2) (write c2 (codes "started\n") w)

  abbrev pub with_commands : ℤ → Thrown (Unit {0}) × ℤ × W → Started
  with_commands event_port (e1, c1, w) = with_events (e1, c1) (open_connection event_port w)

  unfoldable pub start : ℤ → ℤ → W → Started
  start command_port event_port w = with_commands event_port (open_connection command_port w)
