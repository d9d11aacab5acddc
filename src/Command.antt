-- ===== src/Command.antt =====
-- The commands of open-ldb/LuaDebugger.cpp: the constants with their shortest spellings, and the
-- chain of tests `strstr(pCmd, …Cmd) == pCmd` in `commandParser`.
pub mod Spelling
use lua_eclipse_ide.Base.{Bytes, codes, Bool, ◌||◌, if◌then◌else◌}
use lua_eclipse_ide.Text.{starts_with}

pub data Command : Type 0 where
  get_globals data_for_ide var_for_ide stack_for_ide suspend list set_break clear_break display
        assign step continue print quit help unknown :
      Command

abbrev pub list_cmd : Bytes
list_cmd = codes "l"

abbrev pub set_break_cmd : Bytes
set_break_cmd = codes "b"

abbrev pub clear_break_cmd : Bytes
clear_break_cmd = codes "cl"

abbrev pub display_cmd : Bytes
display_cmd = codes "d"

abbrev pub assign_cmd : Bytes
assign_cmd = codes "a"

abbrev pub step_cmd : Bytes
step_cmd = codes "ste"

abbrev pub continue_cmd : Bytes
continue_cmd = codes "co"

abbrev pub resume_cmd : Bytes
resume_cmd = codes "resume"

abbrev pub print_cmd : Bytes
print_cmd = codes "p"

abbrev pub quit_cmd : Bytes
quit_cmd = codes "q"

abbrev pub help_cmd : Bytes
help_cmd = codes "help"

abbrev pub suspend_cmd : Bytes
suspend_cmd = codes "su"

abbrev pub stack_for_ide_cmd : Bytes
stack_for_ide_cmd = codes "sta"

abbrev pub var_for_ide_cmd : Bytes
var_for_ide_cmd = codes "var"

abbrev pub data_for_ide_cmd : Bytes
data_for_ide_cmd = codes "data"

abbrev pub get_globals_cmd : Bytes
get_globals_cmd = codes "getglobals"

-- The chain, in the order of the source.
unfoldable pub classify : Bytes → Command
unfolding starts_with
classify cmd =
    if starts_with get_globals_cmd cmd
    then get_globals
    else if starts_with data_for_ide_cmd cmd
    then data_for_ide
    else if starts_with var_for_ide_cmd cmd
    then var_for_ide
    else if starts_with stack_for_ide_cmd cmd
    then stack_for_ide
    else if starts_with suspend_cmd cmd
    then suspend
    else if starts_with list_cmd cmd
    then list
    else if starts_with set_break_cmd cmd
    then set_break
    else if starts_with clear_break_cmd cmd
    then clear_break
    else if starts_with display_cmd cmd
    then display
    else if starts_with assign_cmd cmd
    then assign
    else if starts_with step_cmd cmd
    then step
    else if starts_with continue_cmd cmd || starts_with resume_cmd cmd
    then continue
    else if starts_with print_cmd cmd
    then print
    else if starts_with quit_cmd cmd
    then quit
    else if starts_with help_cmd cmd
    then help
    else unknown
