-- ===== src/Source.antt =====
-- The lists of source lines of open-ldb/LuaDebugger.cpp (`allScriptsLines`): `setLineSourceList`,
-- `readSourcefromStringBuffer` for a script held in memory, `readFile` for one on disk, and
-- `getFileLine`.
pub mod Lines
pub mod Read
pub mod File
use lua_eclipse_ide.Base.{
  ℕ, zero, suc, ◌+◌, Bool, true, false, Option, none, some, List, [], ◌∷◌, ◌++◌, Bytes, codes, ℤ,
  pos, negsuc, ltb, ◌==◌, if◌then◌else◌, ◌||◌, length, get_elem?,
}
use lua_eclipse_ide.Fault.{Result, ok, fault, overflow, out_of_range, ◌>>=◌}
use lua_eclipse_ide.ScriptMap.{push_back}
use lua_eclipse_ide.Text.{show_nat}

abbrev pub SourceLines : Type 0
SourceLines = Bytes → List Bytes

unfoldable pub set_line_source_list : SourceLines → Bytes → Bytes → SourceLines
set_line_source_list all script_name text = push_back all script_name text

-- `int MAX = 170`, the size of the two buffers of either reader.
abbrev pub max_line : ℕ
max_line = 170

-- `sprintf(line, "%d  %s", lineNumber, text)`.
abbrev pub numbered : ℕ → Bytes → Bytes
numbered n text = show_nat n ++ (codes "  " ++ text)

abbrev pub checked_line : ℕ → Bytes → Result Bytes
checked_line n text =
    if ltb (length (numbered n text)) max_line then ok (numbered n text) else fault overflow

abbrev is_empty : Bytes → Bool
is_empty [] = true
is_empty (c ∷ s) = false

-- The body of the loop at a newline or at the last byte: `text[k] = '\0'`, then the line is printed.
abbrev end_line : ℕ → Bytes → Result Bytes
end_line n text = if ltb (length text) max_line then checked_line n text else fault overflow

-- The loop of `readSourcefromStringBuffer`, at `j` with `k = length text`. At the last byte the
-- line ends whatever that byte is.
pub read_buffer_loop : SourceLines → Bytes → ℕ → Bytes → Bytes → Result SourceLines
read_buffer_loop all name n text [] = ok all
read_buffer_loop all name n text (ch ∷ rest) = elim (ch == b'\n' || is_empty rest) [
  | true ↦ end_line n text >>= λ line.
      read_buffer_loop (set_line_source_list all name line) name (n + 1) [] rest
  | false ↦ elim (ltb (length text) max_line) [
    | true ↦ read_buffer_loop all name n (text ++ ch ∷ []) rest
    | false ↦ fault overflow
  ]
]

unfoldable pub read_source_from_string_buffer : SourceLines → Bytes → Bytes → Result SourceLines
unfolding read_buffer_loop set_line_source_list
read_source_from_string_buffer all source name = read_buffer_loop all name 1 [] source

-- `while (indata.getline(line, MAX))` of `readFile`, byte by byte: `getline` fails at the end of the
-- file when it has read nothing, and when `MAX - 1` bytes are in and neither the end of the file
-- nor a newline follows.
pub read_file_loop : SourceLines → Bytes → ℕ → Bytes → Bytes → Result SourceLines
read_file_loop all name i line [] = elim (is_empty line) [
  | true ↦ ok all
  | false ↦ checked_line i line >>= λ text. ok (set_line_source_list all name text)
]
read_file_loop all name i line (ch ∷ rest) = elim (ch == b'\n') [
  | true ↦ checked_line i line >>= λ text.
      read_file_loop (set_line_source_list all name text) name (i + 1) [] rest
  | false ↦ elim (length line == 169) [
    | true ↦ ok all
    | false ↦ read_file_loop all name i (line ++ ch ∷ []) rest
  ]
]

-- `none`: the file could not be opened; a message is printed and the first `getline` fails.
unfoldable pub read_file : SourceLines → Option Bytes → Bytes → Result SourceLines
unfolding read_file_loop set_line_source_list
read_file all none name = ok all
read_file all (some contents) name = read_file_loop all name 1 [] contents

-- `list[index - 1]`, unchecked.
abbrev at_index : List Bytes → ℤ → Option Bytes
at_index list (pos (suc i)) = get_elem? list i
at_index list _ = none

abbrev or_out_of_range : Option Bytes → Result Bytes
or_out_of_range none = fault out_of_range
or_out_of_range (some text) = ok text

abbrev pub line_in : List Bytes → ℤ → Result Bytes
line_in [] index = ok (codes "lines not available")
line_in (l ∷ list) index = or_out_of_range (at_index (l ∷ list) index)

unfoldable pub get_file_line : SourceLines → Bytes → ℤ → Result Bytes
get_file_line all file_name index = line_in (all file_name) index
