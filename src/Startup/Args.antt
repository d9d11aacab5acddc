-- ===== src/Startup/Args.antt =====
-- The command line, as `main` of open-ldb/LuaDebugger.cpp reads it: a loop over `argv` in which a
-- switch takes the next argument, whatever it is. Behind the last argument stands a null pointer.
use lua_eclipse_ide.Base.{
  ℕ, ◌≤◌, Bool, true, false, Option, none, some, List, [], ◌∷◌, ◌++◌, ◌≡◌, refl, Bytes, codes, ℤ,
  pos, length, eq_bytes, ◌==◌, if◌then◌else◌,
}
use lua_eclipse_ide.Fault.{Result, ok, fault, null_pointer, undefined_int}
use lua_eclipse_ide.Text.{atoi, show_nat, max_int}
use lua_eclipse_ide.Text.Print.{atoi-show_nat}
use lua_eclipse_ide.Session.{DebuggerType, ldb, ide}

-- The local variables of `main`, and the global variable `debugger`.
pub record Settings : Type 0 where
  pub script_name : Option Bytes
  pub buffer_script : Bool
  pub debugger : DebuggerType
  pub command_port : ℤ
  pub event_port : ℤ

abbrev pub default_settings : Settings
default_settings = record {
  script_name = none;
  buffer_script = true;
  debugger = ldb;
  command_port = pos 0;
  event_port = pos 0;
}

abbrev pub char_of : Bytes → ℕ → ℕ
char_of [] i = 0
char_of (c ∷ s) ℕ.zero = c
char_of (c ∷ s) (ℕ.suc i) = char_of s i

abbrev or_undefined : Option ℤ → (ℤ → Settings) → Result Settings
or_undefined none store = fault undefined_int
or_undefined (some n) store = ok (store n)

abbrev type_named : Bytes → DebuggerType
type_named name = if eq_bytes name (codes "ide") then ide else ldb

-- The switch on the letter behind the dash, with the value that it takes.
unfoldable pub store_setting : ℕ → Bytes → Settings → Result Settings
store_setting letter value s =
    if letter == b'n'
    then ok (record s { script_name = some value })
    else if letter == b'b'
    then ok (record s { buffer_script = eq_bytes value (codes "true") })
    else if letter == b't'
    then ok (record s { debugger = type_named value })
    else if letter == b'c'
    then or_undefined (atoi value) (λ n. record s { command_port = n })
    else or_undefined (atoi value) (λ n. record s { event_port = n })

-- The same at the end of `argv`: only a null name is not looked at.
abbrev store_null : ℕ → Settings → Result Settings
store_null letter s =
    if letter == b'n' then ok (record s { script_name = none }) else fault null_pointer

abbrev pub is_switch : ℕ → Bool
is_switch letter =
    if letter == b'n'
    then true
    else if letter == b'b'
    then true
    else if letter == b't'
    then true
    else if letter == b'c'
    then true
    else letter == b'e'

abbrev and_then : Result Settings → (Settings → Result Settings) → Result Settings
and_then (fault e) next = fault e
and_then (ok s) next = next s

unfoldable pub parse_args : List Bytes → Settings → Result Settings
parse_args [] s = ok s
parse_args (arg ∷ []) s =
    if char_of arg 0 == b'-'
    then if is_switch (char_of arg 1) then store_null (char_of arg 1) s else ok s
    else ok s
parse_args (arg ∷ value ∷ rest) s =
    let skipped = parse_args (value ∷ rest) s in
    let taken = and_then (store_setting (char_of arg 1) value s) (parse_args rest) in
    if char_of arg 0 == b'-' then if is_switch (char_of arg 1) then taken else skipped else skipped

-- `main` goes on only with the command name and ten arguments; `none` is its early return.
unfoldable pub read_command_line : List Bytes → Option (Result Settings)
read_command_line argv =
    if length argv == 11 then some (parse_args (drop_name argv) default_settings) else none
  where
    drop_name : List Bytes → List Bytes
    drop_name [] = []
    drop_name (name ∷ args) = args

-- What a user asks for.
pub data Setting : Type 0 where
  named : Bytes → Setting
  buffered : Bool → Setting
  typed : DebuggerType → Setting
  commands_at : ℕ → Setting
  events_at : ℕ → Setting

abbrev pub words : Setting → List Bytes
words (named name) = codes "-n" ∷ name ∷ []
words (buffered true) = codes "-b" ∷ codes "true" ∷ []
words (buffered false) = codes "-b" ∷ codes "false" ∷ []
words (typed ide) = codes "-t" ∷ codes "ide" ∷ []
words (typed ldb) = codes "-t" ∷ codes "ldb" ∷ []
words (commands_at n) = codes "-c" ∷ show_nat n ∷ []
words (events_at n) = codes "-e" ∷ show_nat n ∷ []

abbrev pub IsPort : Setting → Type 0
IsPort (commands_at n) = n ≤ max_int
IsPort (events_at n) = n ≤ max_int
IsPort _ = Unit {0}

abbrev pub AllPorts : List Setting → Type 0
AllPorts [] = Unit {0}
AllPorts (o ∷ os) = IsPort o × AllPorts os

abbrev pub command_words : List Setting → List Bytes
command_words [] = []
command_words (o ∷ os) = words o ++ command_words os

abbrev apply : Setting → Settings → Settings
apply (named name) s = record s { script_name = some name }
apply (buffered b) s = record s { buffer_script = b }
apply (typed k) s = record s { debugger = k }
apply (commands_at n) s = record s { command_port = pos n }
apply (events_at n) s = record s { event_port = pos n }

-- The settings in their order, a later one over an earlier one.
abbrev pub apply_all : List Setting → Settings → Settings
apply_all [] s = s
apply_all (o ∷ os) s = apply_all os (apply o s)

-- Settings that are written as the help text says, in any order, are read back.
pub parse_args-command_words :
    (os : List Setting) (s : Settings)
    → AllPorts os
    → parse_args (command_words os) s ≡ ok (apply_all os s)
unfolding parse_args store_setting eq_bytes
parse_args-command_words [] s h = refl
parse_args-command_words (named name ∷ os) s h = parse_args-command_words os _ h.1
parse_args-command_words (buffered true ∷ os) s h = parse_args-command_words os _ h.1
parse_args-command_words (buffered false ∷ os) s h = parse_args-command_words os _ h.1
parse_args-command_words (typed ldb ∷ os) s h = parse_args-command_words os _ h.1
parse_args-command_words (typed ide ∷ os) s h = parse_args-command_words os _ h.1
parse_args-command_words (commands_at n ∷ os) s h =
    rw (atoi-show_nat n h.0) (parse_args-command_words os _ h.1)
parse_args-command_words (events_at n ∷ os) s h =
    rw (atoi-show_nat n h.0) (parse_args-command_words os _ h.1)
