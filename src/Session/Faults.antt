-- ===== src/Session/Faults.antt =====
-- Command lines that end the debugger's process.
use lua_eclipse_ide.Base.{Bytes, ◌++◌, [], ◌∷◌, false, ◌≡◌, ◌≢◌, refl, ◌∙◌, ap}
use lua_eclipse_ide.Fault.{fault, null_pointer}
use lua_eclipse_ide.Text.{contains, cut_at, strtok}
use lua_eclipse_ide.Text.Tokens.{
  AllBlank, strtok-AllBlank, contains-AllBlank, cut_at-append, cut_at_without, strtok_only,
}
use lua_eclipse_ide.LuaView.{LuaState, Activation}
use lua_eclipse_ide.Command.{Command, set_break, clear_break, print, var_for_ide, classify}
use lua_eclipse_ide.Session.{Session, ◌>>=◌}
use lua_eclipse_ide.Session.Execute.{execute, run_set_break, run_clear_break, run_print, run_var}
use lua_eclipse_ide.Session.Parser.{run_line}

words_of :
    (s : Bytes)
    → contains b'\n' s ≡ false
    → contains 13 s ≡ false
    → strtok (cut_at 13 (cut_at b'\n' (s ++ b'\n' ∷ []))) ≡ strtok s
words_of s n r =
    ap (λ (t : Bytes). strtok (cut_at 13 t)) (cut_at-append b'\n' s [] n)
    ∙ ap strtok (cut_at_without 13 s r)

-- A line of blanks alone, or of nothing, is looked up through the null pointer.
pub run_line_blank :
    (blanks : Bytes) (l : LuaState) (ar : Activation) (s : Session)
    → AllBlank blanks
    → run_line l ar (blanks ++ b'\n' ∷ []) s ≡ fault null_pointer
unfolding run_line ◌>>=◌
run_line_blank blanks l ar s h = rw (
  words_of blanks (contains-AllBlank b'\n' blanks refl h) (contains-AllBlank 13 blanks refl h),
  strtok-AllBlank blanks h,
)

-- The commands that hand their first argument to `atoi` or `strcmp` unchecked.
pub data WantsArgument : Command → Type 0 where
  break_wants : WantsArgument set_break
  clear_wants : WantsArgument clear_break
  print_wants : WantsArgument print
  var_wants : WantsArgument var_for_ide

execute_without_argument :
    (l : LuaState) (ar : Activation) (cmd : Bytes) (s : Session) {c : Command}
    → WantsArgument c
    → execute l ar c cmd [] s ≡ fault null_pointer
unfolding execute run_set_break run_clear_break run_print run_var ◌>>=◌ strtok
execute_without_argument l ar cmd s break_wants = refl
execute_without_argument l ar cmd s clear_wants = refl
execute_without_argument l ar cmd s print_wants = refl
execute_without_argument l ar cmd s var_wants = refl

-- A line with one of these commands and no argument reads through the null pointer: `atoi` and
-- `strcmp` do not give 0 there.
pub run_line_without_argument :
    (cmd : Bytes) (l : LuaState) (ar : Activation) (s : Session)
    → WantsArgument (classify cmd)
    → cmd ≢ []
    → contains b' ' cmd ≡ false
    → contains b'\n' cmd ≡ false
    → contains 13 cmd ≡ false
    → run_line l ar (cmd ++ b'\n' ∷ []) s ≡ fault null_pointer
unfolding run_line
run_line_without_argument cmd l ar s w ne blank newline return =
    rw (words_of cmd newline return, strtok_only cmd ne blank)
      (execute_without_argument l ar cmd s w)
