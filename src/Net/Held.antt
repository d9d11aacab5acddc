-- ===== src/Net/Held.antt =====
-- No descriptor leaks: what the start of a session leaves open are the connections
-- (open-ldb/ServerSocket.cpp, `main` of open-ldb/LuaDebugger.cpp).
use lua_eclipse_ide.Base.{
  ℕ, Bool, true, false, List, [], ◌∷◌, Bytes, ℤ, eq_int, eq_int_iff, eq_int_refl, if◌then◌else◌,
  ◌≡◌, refl, ◌∙◌, ap, Bool-cases, split_if, inl, inr,
}
use lua_eclipse_ide.Net.{
  Os, invalid, is_valid, destroy, with_option, create, bind, listen, accept, send,
}
use lua_eclipse_ide.Net.Server.{
  Thrown, throws, returns, after_listen, after_bind, after_create, after_accept, with_server,
  server_socket, open_connection, start, wrote, write,
}

-- A list of descriptors without the first entry of `d`.
abbrev pub without : ℤ → List ℤ → List ℤ
without d [] = []
without d (e ∷ held) = if eq_int d e then held else e ∷ without d held

-- A new descriptor, if there is one, is held.
abbrev pub with_new : ℤ → List ℤ → List ℤ
with_new d held = if is_valid d then d ∷ held else held

-- What the operating system promises of the descriptors that a process holds.
pub record OsLaws {ℓ} {W : Type ℓ} (os : Os W) (held : W → List ℤ) : Type ℓ where
  pub socket_held : (w : W) → held (os.socket w).1 ≡ with_new (os.socket w).0 (held w)
  pub option_held : (d : ℤ) (w : W) → held (os.reuse_address d w).1 ≡ held w
  pub bind_held : (d port : ℤ) (w : W) → held (os.bind d port w).1 ≡ held w
  pub listen_held : (d : ℤ) (n : ℕ) (w : W) → held (os.listen d n w).1 ≡ held w
  pub accept_held : (d : ℤ) (w : W) → held (os.accept d w).1 ≡ with_new (os.accept d w).0 (held w)
  pub send_held : (d : ℤ) (s : Bytes) (w : W) → held (os.send d s w).1 ≡ held w
  pub close_held : (d : ℤ) (w : W) → held (os.close d w) ≡ without d (held w)

without_first : (d : ℤ) (hs : List ℤ) → without d (d ∷ hs) ≡ hs
without_first d hs = rw (eq_int_refl d)

without_second : (d e : ℤ) (hs : List ℤ) → without d (e ∷ d ∷ hs) ≡ e ∷ hs
without_second d e hs = elim (Bool-cases (eq_int d e)) [
  | inl same ↦ rw same (ap (λ x. x ∷ hs) ((eq_int_iff d e).0 same))
  | inr other ↦ rw other (ap (λ x. e ∷ x) (without_first d hs))
]

-- Closing the server does not touch the connection.
without-with_new : (d e : ℤ) (hs : List ℤ) → without d (with_new e (d ∷ hs)) ≡ with_new e hs
without-with_new d e hs = elim (Bool-cases (is_valid e)) [
  | inl new ↦ rw new (without_second d e hs)
  | inr none ↦ rw none (without_first d hs)
]

module _ {ℓ} {W : Type ℓ} (os : Os W) (held : W → List ℤ) (laws : OsLaws os held) where
  destroy-held : (d : ℤ) (w : W) (hs : List ℤ) → held w ≡ with_new d hs → held (destroy os d w) ≡ hs
  unfolding destroy
  destroy-held d w hs h = elim (Bool-cases (is_valid d)) [
    | inl e ↦
        let there : held w ≡ d ∷ hs = h ∙ (rw e refl) in
        rw (e, laws.close_held d w, there, eq_int_refl d) refl
    | inr e ↦ rw e (h ∙ (rw e refl))
  ]

  created-held :
      (hs : List ℤ) (r : ℤ × W)
      → held r.1 ≡ with_new r.0 hs
      → held (with_option os r).2 ≡ with_new (with_option os r).1 hs
  created-held hs (sock, w) h = elim (Bool-cases (is_valid sock)) [
    | inl e ↦ rw e (laws.option_held sock w ∙ h ∙ (rw e refl))
    | inr e ↦ rw e (h ∙ (rw e refl))
  ]

  create-held : (w : W) → held (create os w).2 ≡ with_new (create os w).1 (held w)
  unfolding create
  create-held w = created-held (held w) (os.socket w) (laws.socket_held w)

  bind-held : (d port : ℤ) (w : W) → held (bind os d port w).1 ≡ held w
  unfolding bind
  bind-held d port w =
      split_if (λ (r : Bool × W). held r.1 ≡ held w) (is_valid d) _ (false, w)
        (λ e. laws.bind_held d port w) λ e. refl

  listen-held : (d : ℤ) (w : W) → held (listen os d w).1 ≡ held w
  unfolding listen
  listen-held d w =
      split_if (λ (r : Bool × W). held r.1 ≡ held w) (is_valid d) _ (false, w)
        (λ e. laws.listen_held d 5 w) λ e. refl

  -- What a constructor leaves held: its descriptor, and nothing if it throws.
  abbrev HoldsServer : List ℤ → Thrown ℤ × W → Type 0
  HoldsServer hs (throws why, w) = held w ≡ hs
  HoldsServer hs (returns sock, w) = held w ≡ with_new sock hs

  after_listen-held :
      (hs : List ℤ) (sock : ℤ) (r : Bool × W)
      → held r.1 ≡ with_new sock hs
      → HoldsServer hs (after_listen os sock r)
  after_listen-held hs sock (true, w) h = h
  after_listen-held hs sock (false, w) h = destroy-held sock w hs h

  after_bind-held :
      (hs : List ℤ) (sock : ℤ) (r : Bool × W)
      → held r.1 ≡ with_new sock hs
      → HoldsServer hs (after_bind os sock r)
  after_bind-held hs sock (true, w) h =
      after_listen-held hs sock (listen os sock w) (listen-held sock w ∙ h)
  after_bind-held hs sock (false, w) h = destroy-held sock w hs h

  after_create-held :
      (hs : List ℤ) (port : ℤ) (r : Bool × ℤ × W)
      → held r.2 ≡ with_new r.1 hs
      → HoldsServer hs (after_create os port r)
  after_create-held hs port (true, sock, w) h =
      after_bind-held hs sock (bind os sock port w) (bind-held sock port w ∙ h)
  after_create-held hs port (false, sock, w) h = destroy-held sock w hs h

  server_socket-held : (port : ℤ) (w : W) → HoldsServer (held w) (server_socket os port w)
  unfolding server_socket
  server_socket-held port w = after_create-held (held w) port (create os w) (create-held w)

  -- A block of `main` leaves the connection held, and nothing else.
  abbrev HoldsConnection : List ℤ → Thrown (Unit {0}) × ℤ × W → Type 0
  HoldsConnection hs (error, sock, w) = held w ≡ with_new sock hs

  accept-held : (d : ℤ) (w : W) → held (accept os d w).2 ≡ with_new (accept os d w).1 (held w)
  unfolding accept
  accept-held d w = laws.accept_held d w

  destroy_server-held :
      (hs : List ℤ) (server sock : ℤ) (w : W)
      → held w ≡ with_new sock (with_new server hs)
      → held (destroy os server w) ≡ with_new sock hs
  unfolding destroy
  destroy_server-held hs server sock w h = elim (Bool-cases (is_valid server)) [
    | inl e ↦
        let there : held w ≡ with_new sock (server ∷ hs) = h ∙ (rw e refl) in
        rw (e, laws.close_held server w, there) (without-with_new server sock hs)
    | inr e ↦ rw e (h ∙ (rw e refl))
  ]

  after_accept-held :
      (hs : List ℤ) (server : ℤ) (r : Bool × ℤ × W)
      → held r.2 ≡ with_new r.1 (with_new server hs)
      → HoldsConnection hs (after_accept os server r)
  after_accept-held hs server (true, sock, w) h = destroy_server-held hs server sock w h
  after_accept-held hs server (false, sock, w) h = destroy_server-held hs server sock w h

  with_server-held :
      (hs : List ℤ) (r : Thrown ℤ × W) → HoldsServer hs r → HoldsConnection hs (with_server os r)
  with_server-held hs (throws why, w) h = h ∙ (rw (eq_int_refl invalid) refl)
  with_server-held hs (returns server, w) h =
      after_accept-held hs server (accept os server w) (accept-held server w ∙ ap (with_new _) h)

  open_connection-held : (port : ℤ) (w : W) → HoldsConnection (held w) (open_connection os port w)
  unfolding open_connection
  open_connection-held port w =
      with_server-held (held w) (server_socket os port w) (server_socket-held port w)

  send-held : (d : ℤ) (s : Bytes) (w : W) → held (send os d s w).1 ≡ held w
  unfolding send
  send-held d s w = laws.send_held d s w

  wrote-held : (r : Bool × W) → held (wrote os r).1 ≡ held r.1
  wrote-held (true, w) = refl
  wrote-held (false, w) = refl

  write-held : (d : ℤ) (s : Bytes) (w : W) → held (write os d s w).1 ≡ held w
  unfolding write
  write-held d s w = wrote-held (send os d s w) ∙ send-held d s w

  -- Whatever fails on the way, the start of a session leaves held what was held before and the two
  -- connections, where there are such: both listening sockets are closed.
  pub start-held :
      (command_port event_port : ℤ) (w : W)
      → held (start os command_port event_port w).system
        ≡ with_new
            (start os command_port event_port w).event_socket
            (with_new (start os command_port event_port w).command_socket (held w))
  unfolding start
  start-held command_port event_port w =
      let first = open_connection os command_port w in
      let second = open_connection os event_port first.2 in
      write-held second.1 _ second.2
      ∙ open_connection-held event_port first.2
      ∙ ap (with_new second.1) (open_connection-held command_port w)
