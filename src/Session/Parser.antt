-- ===== src/Session/Parser.antt =====
-- `commandParser` of open-ldb/LuaDebugger.cpp: reading a command from the prompt or the command
-- socket, and the loop that runs commands until one of them lets the script go on.
pub mod Moves
pub mod Delivered
pub mod Taken
pub mod Sockets
pub mod Follows
pub mod Works
pub mod Rounds
pub mod Ends
pub mod Fuel
pub mod Pieces
use lua_eclipse_ide.Base.{
  ℕ, zero, suc, ◌+◌, Bytes, ◌++◌, codes, List, [], ◌∷◌, Option, none, some, Bool, true, false,
  if◌then◌else◌, length, ltb, leb, ◌==◌, ◌&&◌, ◌||◌,
}
use lua_eclipse_ide.Fault.{Result, ok, fault, null_pointer, indeterminate}
use lua_eclipse_ide.Text.{cut_at, contains, strtok, take_bytes, show_nat}
use lua_eclipse_ide.LuaView.{LuaState, Activation, c_str}
use lua_eclipse_ide.Command.{classify}
use lua_eclipse_ide.Session.Execute.{execute}
use lua_eclipse_ide.Session.{
  DebuggerType, ldb, ide, Session, M, ◌>>=◌, ◌>>◌, pure, lift, raise, print, send, event,
  at_prompt_or_ide,
}

-- What reading one command ends in: a command text and whether the loop may go on after it, no
-- command, or a `SocketException`, which the code catches.
pub data Reading : Type 0 where
  command_text : Bytes → Bool → Reading
  no_command : Reading
  exception : Reading

-- `while (found == npos)`, with `max = 5`: more pieces, until there is a newline. The sixth piece is
-- the last, and after it the loop over commands does not go on. Gives the inputs that are left.
pub gather : ℕ → Bytes → List (Option Bytes) → Reading × List (Option Bytes)
gather count text [] = if contains b'\n' text then (command_text text true, []) else (exception, [])
gather count text (none ∷ inputs) =
    if contains b'\n' text then (command_text text true, none ∷ inputs) else (exception, inputs)
gather count text (some piece ∷ inputs) =
    let later = gather (count + 1) (text ++ c_str piece) inputs in
    if contains b'\n' text
    then (command_text text true, some piece ∷ inputs)
    else if leb 5 count
    then (command_text (text ++ c_str piece) false, inputs)
    else later

abbrev gathered : Reading × List (Option Bytes) → M Reading
gathered (command_text text false, inputs) s =
    (do
      print (codes "could not get full command string after " ++ (show_nat 6 ++ codes " times"))
      pure (command_text text false))
      (record s { inputs = inputs })
gathered (exception, inputs) s =
    (do print (codes "received socket exception\n"); pure exception) (record s { inputs = inputs })
gathered (reading, inputs) s = ok (reading, record s { inputs = inputs })

abbrev first_piece : Bytes → List (Option Bytes) → M Reading
first_piece [] inputs s =
    (do print (codes "No command given\n"); pure no_command) (record s { inputs = inputs })
first_piece (c ∷ text) inputs s = gathered (gather 0 (c ∷ text) inputs) s

abbrev receive : List (Option Bytes) → M Reading
receive [] s = gathered (exception, []) s
receive (none ∷ inputs) s = gathered (exception, inputs) s
receive (some piece ∷ inputs) s = first_piece (c_str piece) inputs s

-- `newSocket >> data`, and the pieces that complete it.
unfoldable pub receive_command : M Reading
unfolding gather
receive_command s = receive s.inputs s

-- `char line[160]`: `strncpy(line, data, 159)`. The last byte is set only for a text of more than
-- 160 bytes; `ended` says whether that has happened in this call of `commandParser`.
abbrev pub line_len : ℕ
line_len = 160

unfoldable pub fill_line : Bytes → Bool → Result (Bytes × Bool)
fill_line text ended =
    if ltb (length text) 159
    then ok (text, ended)
    else if ltb line_len (length text)
    then ok (take_bytes 159 text, true)
    else if ended
    then ok (take_bytes 159 text, true)
    else fault indeterminate

-- `cin.getline(line, 160)`. A line that does not fit is cut, and `cin` fails from then on; where it
-- fails, and at the end of the input, the line is empty.
abbrev type_line : List (Option Bytes) → Session → Result (Bytes × Session)
type_line [] s = ok ([], s)
type_line (none ∷ inputs) s = ok ([], record s { inputs = [] })
type_line (some text ∷ inputs) s =
    if ltb (length text) line_len
    then ok (text, record s { inputs = inputs })
    else ok (take_bytes 159 text, record s { inputs = [] })

-- One round of the loop: whether there is another one.
pub data Round : Type 0 where
  again : Bool → Round
  finished : Round

abbrev next_round : Bool → Bool → Round
next_round true ended = again ended
next_round false ended = finished

abbrev pub run_words : LuaState → Activation → Option (Bytes × Bytes) → M Bool
run_words l ar none = raise null_pointer
run_words l ar (some (cmd, rest)) = execute l ar (classify cmd) cmd rest

-- The command in `line`: it is cut at a newline and at a carriage return, and its first word is
-- looked up. A line without a word is looked up through the null pointer.
unfoldable pub run_line : LuaState → Activation → Bytes → M Bool
run_line l ar line = run_words l ar (strtok (cut_at 13 (cut_at b'\n' line)))

abbrev run_text : LuaState → Activation → Bool → Bytes → Bool → M Round
run_text l ar ended [] keep_going = pure (next_round keep_going ended)
run_text l ar ended (c ∷ line) keep_going = do
  more ← run_line l ar (c ∷ line)
  pure (next_round (keep_going && more) ended)

abbrev after_reading : LuaState → Activation → Bool → Reading → M Round
after_reading l ar ended no_command = pure (again ended)
after_reading l ar ended exception = pure finished
after_reading l ar ended (command_text text keep_going) =
    lift (fill_line text ended) >>= λ filled. run_text l ar filled.1 filled.0 keep_going

abbrev round_of : DebuggerType → LuaState → Activation → Bool → M Round
round_of ldb l ar ended =
    (print (codes "ldb> ") >> λ s. type_line s.inputs s) >>= λ line. run_text l ar ended line true
round_of ide l ar ended = receive_command >>= after_reading l ar ended

unfoldable pub round : LuaState → Activation → Bool → M Round
round l ar ended s = round_of s.kind l ar ended s

-- `while (keepGoing)`, with fuel; `none` means that the fuel ran out.
unfoldable pub parser_loop : ℕ → LuaState → Activation → Bool → Session → Option (Result Session)
parser_loop zero l ar ended s = none
parser_loop (suc f) l ar ended s = elim (round l ar ended s) [
  | fault e ↦ some (fault e)
  | ok (r, s') ↦ elim r [ again e ↦ parser_loop f l ar e s' | finished ↦ some (ok s') ]
]

-- What the environment is told when the parser is entered.
abbrev banner : M (Unit {0})
banner = at_prompt_or_ide (pure tt) (
    send (event (codes "resumed client\n"))
    >> send (event (codes "resumed client\nsuspended step\n")))

abbrev loop_from : LuaState → Activation → Result (Unit {0} × Session) → Option (Result Session)
loop_from l ar (ok (_, s)) = parser_loop (suc (length s.inputs)) l ar false s
loop_from l ar (fault e) = some (fault e)

-- The fuel is for one round more than there are inputs. A round without an input ends the loop over
-- the sockets; at the prompt it is one of rounds without an end, and `none` is such a loop.
unfoldable pub command_parser : LuaState → Activation → Session → Option (Result Session)
command_parser l ar s = loop_from l ar (banner s)
