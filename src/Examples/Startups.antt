-- ===== src/Examples/Startups.antt =====
-- The start of the program at small inputs: command lines, scripts, tracebacks
-- (open-ldb/LuaDebugger.cpp), and sockets over a small system (open-ldb/ServerSocket.cpp).
use lua_eclipse_ide.Base.{
  ◌+◌, some, List, [], ◌∷◌, ◌≡◌, refl, arith, codes, ℤ, pos, eq_int, length, if◌then◌else◌,
}
use lua_eclipse_ide.Fault.{ok, fault, null_pointer}
use lua_eclipse_ide.Session.{ide}
use lua_eclipse_ide.Startup.Args.{
  default_settings, named, typed, commands_at, parse_args, command_words, parse_args-command_words,
}
use lua_eclipse_ide.Startup.Traceback.{trace_items, shown_from, trace_items_lem}
use lua_eclipse_ide.Net.{Os, invalid}
use lua_eclipse_ide.Net.Server.{start}
use lua_eclipse_ide.Net.Held.{without, with_new, OsLaws, start-held}

parse_args-command_words_example :
    parse_args
      (command_words (typed ide ∷ named (codes "a.lua") ∷ commands_at 9000 ∷ []))
      default_settings
    ≡ ok (record default_settings {
      script_name = some (codes "a.lua");
      debugger = ide;
      command_port = pos 9000;
    })
parse_args-command_words_example =
    parse_args-command_words (typed ide ∷ named (codes "a.lua") ∷ commands_at 9000 ∷ [])
      default_settings (tt, (tt, (omega arith, tt)))

-- A switch at the end has no value, and the null pointer is read.
parse_args_null : parse_args (codes "-t" ∷ []) default_settings ≡ fault null_pointer
unfolding parse_args
parse_args_null = refl

trace_items_lem_example : trace_items 40 ≡ shown_from 40 1
trace_items_lem_example = trace_items_lem 40

-- A system whose state is the descriptors that are held; port 0 cannot be bound.
abbrev new_fd : List ℤ → ℤ
new_fd held = pos (3 + length held)

abbrev small_os : Os (List ℤ)
small_os = record {
  socket = λ held. (new_fd held, new_fd held ∷ held);
  reuse_address = λ d held. (pos 0, held);
  bind = λ d port held. (if eq_int port (pos 0) then invalid else pos 0, held);
  listen = λ d n held. (pos 0, held);
  accept = λ d held. (new_fd held, new_fd held ∷ held);
  send = λ d s held. (pos (length s), held);
  recv = λ d n held. (pos 0, [], held);
  close = without;
}

small_laws : OsLaws small_os (λ held. held)
unfolding eq_int
small_laws = record {
  socket_held = λ held. refl;
  option_held = λ d held. refl;
  bind_held = λ d port held. refl;
  listen_held = λ d n held. refl;
  accept_held = λ d held. refl;
  send_held = λ d s held. refl;
  close_held = λ d held. refl;
}

start-held_example :
    (start small_os (pos 9000) (pos 0) []).system
    ≡ with_new
        (start small_os (pos 9000) (pos 0) []).event_socket
        (with_new (start small_os (pos 9000) (pos 0) []).command_socket [])
start-held_example = start-held small_os (λ held. held) small_laws (pos 9000) (pos 0) []
