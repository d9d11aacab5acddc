-- ===== src/Session.antt =====
-- The debugger's state and its actions: the global variables of open-ldb/LuaDebugger.cpp
-- (`debuggerStates`, `allScriptsLines`, `allScriptsBreakpoints`, `debugger`), what it reads and what
-- it writes. `Execute` has the commands, `Parser` the command loop, `Hook` the hook.
pub mod Execute
pub mod Parser
pub mod Hook
pub mod Stops
pub mod Faults
pub mod Orders
pub mod Dialogue
pub mod Keeps
pub mod Works
use lua_eclipse_ide.Base.{
  ◌≡◌, ℕ, zero, suc, ◌+◌, Bytes, ◌++◌, codes, List, [], ◌∷◌, Option, none, some, Bool, true, false,
  if◌then◌else◌,
}
use lua_eclipse_ide.Fault.{Result, ok, fault, socket_exception}
use lua_eclipse_ide.Fault
use lua_eclipse_ide.Breakpoints.{Breakpoints}
use lua_eclipse_ide.Source.{SourceLines}

pub data DebuggerType : Type 0 where
  ldb ide : DebuggerType

abbrev pub stepping : ℕ
stepping = 1

abbrev pub continuing : ℕ
continuing = 2

-- The standard output, the command socket and the event socket.
pub data Output : Type 0 where
  console : Bytes → Output
  command : Bytes → Output
  event : Bytes → Output

-- `inputs` are the lines typed at the prompt, or what the calls of `recv` on the command socket
-- give; `none` is the end of the input, or a call that fails. `send_ok n` says whether the n-th
-- call of `send` succeeds, and `sent` counts the calls. `trace` is all output, the oldest first.
pub record Session : Type 0 where
  pub kind : DebuggerType
  pub state : ℕ
  pub breakpoints : Breakpoints
  pub scripts : SourceLines
  pub inputs : List (Option Bytes)
  pub send_ok : ℕ → Bool
  pub sent : ℕ
  pub trace : List Output

abbrev pub M {ℓ} : Type ℓ → Type ℓ
M A = Session → Result (A × Session)

unfoldable pub pure {ℓ} : {A : Type ℓ} → A → M A
pure a s = ok (a, s)

-- A step that may fault and does not touch the state.
unfoldable pub lift {ℓ} : {A : Type ℓ} → Result A → M A
lift (ok a) s = ok (a, s)
lift (fault e) s = fault e

unfoldable pub raise {ℓ} : {A : Type ℓ} → Fault.Fault → M A
raise e s = fault e

unfoldable pub gets {ℓ} : {A : Type ℓ} → (Session → A) → M A
gets f s = ok (f s, s)

infixl 5 ◌>>=◌ ◌>>◌
-- Opening this opens the actions above.
unfoldable pub ◌>>=◌ {ℓ κ} : {A : Type ℓ} {B : Type κ} → M A → (A → M B) → M B
unfolding pure lift raise gets
◌>>=◌ m f s = elim (m s) [ ok (a, s') ↦ f a s' | fault e ↦ fault e ]

abbrev pub ◌>>◌ {ℓ κ} : {A : Type ℓ} {B : Type κ} → M A → M B → M B
m >> k = m >>= λ _. k

-- `printf`, and `cout <<`.
unfoldable pub print : Bytes → M (Unit {0})
print text s = ok (tt, record s { trace = s.trace ++ console text ∷ [] })

-- `socket << text`: `ServerSocket::operator <<` throws where `send` fails.
unfoldable pub send : Output → M (Unit {0})
send out s =
    if s.send_ok s.sent
    then ok (tt, record s { sent = s.sent + 1; trace = s.trace ++ out ∷ [] })
    else fault socket_exception

abbrev pub by_kind {ℓ} : {A : Type ℓ} → DebuggerType → A → A → A
by_kind ldb x y = x
by_kind ide x y = y

-- `if (debugger == ldb) … else …`.
unfoldable pub at_prompt_or_ide : M (Unit {0}) → M (Unit {0}) → M (Unit {0})
at_prompt_or_ide at_prompt in_ide s = by_kind s.kind at_prompt in_ide s

-- Assignments to `debuggerStates` and `allScriptsBreakpoints`.
unfoldable pub set_state : ℕ → M (Unit {0})
set_state n s = ok (tt, record s { state = n })

unfoldable pub store_breakpoints : Breakpoints → M (Unit {0})
store_breakpoints breakpoints s = ok (tt, record s { breakpoints = breakpoints })

-- The answer to a command: on the standard output, or with a newline on the command socket.
unfoldable pub answer : Bytes → M (Unit {0})
unfolding print send
answer text = at_prompt_or_ide (print text) (send (command (text ++ codes "\n")))

-- Behind an action that ends well.
pub bind_ok :
    {A B : Type 0} (m : M A) (k : A → M B) (s : Session) {a : A} {t : Session}
    {x : Result (B × Session)}
    → m s ≡ ok (a, t)
    → k a t ≡ x
    → (m >>= k) s ≡ x
unfolding ◌>>=◌
bind_ok m k s e h = rw (◌>>=◌, e) h
