-- ===== src/Examples/Received.antt =====
-- A command that comes in two pieces from the operating system.
use lua_eclipse_ide.Base.{
  map, some, false, ◌++◌, Bytes, codes, List, [], ◌∷◌, true, ℤ, pos, length, eq_int, ◌≡◌, refl,
}
use lua_eclipse_ide.Fault.{ok}
use lua_eclipse_ide.Text.{contains, cut_at}
use lua_eclipse_ide.LuaView.{c_str}
use lua_eclipse_ide.Net.{Os, recv}
use lua_eclipse_ide.Net.Server.{read}
use lua_eclipse_ide.Session.{Session, ide, stepping}
use lua_eclipse_ide.Session.Parser.{receive_command, command_text}
use lua_eclipse_ide.Session.Parser.Pieces.{receive_command_seven_pieces}
use lua_eclipse_ide.Session.Parser.Sockets.{gather_from, receive_from}
use lua_eclipse_ide.Examples.Scene.{session}

abbrev next_chunk : List Bytes → ℤ × Bytes × List Bytes
next_chunk [] = (pos 0, [], [])
next_chunk (chunk ∷ chunks) = (pos (length chunk), chunk, chunks)

-- The system's state is what will be received.
abbrev chunked : Os (List Bytes)
chunked = record {
  socket = λ w. (pos 3, w);
  reuse_address = λ s w. (pos 0, w);
  bind = λ s p w. (pos 0, w);
  listen = λ s n w. (pos 0, w);
  accept = λ s w. (pos 4, w);
  send = λ s text w. (pos (length text), w);
  recv = λ s n w. next_chunk w;
  close = λ s w. w;
}

abbrev arriving : List Bytes
arriving = codes "st" ∷ codes "ep\n" ∷ codes "list\n" ∷ []

whole_test : (receive_from chunked (pos 4) arriving).0 ≡ command_text (codes "step\n") true
unfolding receive_from gather_from read recv c_str cut_at contains eq_int
whole_test = refl

-- A command in seven pieces.
abbrev letters : List Bytes
letters = codes "r" ∷ codes "e" ∷ codes "s" ∷ codes "u" ∷ codes "m" ∷ codes "e\n" ∷ []

abbrev trickling : Session
trickling =
    session ide stepping (some (codes "p") ∷ (map some letters ++ some (codes "step\n") ∷ []))

receive_command_seven_pieces_example :
    (t : Session) × (receive_command trickling ≡ ok (command_text (codes "presume\n") false, t))
    × (t.inputs ≡ some (codes "step\n") ∷ [])
unfolding contains
receive_command_seven_pieces_example =
    receive_command_seven_pieces (codes "p") letters (some (codes "step\n") ∷ []) trickling
      (λ e. cc) refl
      (refl, refl, (refl, refl, (refl, refl, (refl, refl, (refl, refl, (refl, refl, tt)))))) refl
