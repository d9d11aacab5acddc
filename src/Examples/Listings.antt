-- ===== src/Examples/Listings.antt =====
-- The readers of source lines.
use lua_eclipse_ide.Base.{Bytes, codes, ◌++◌, [], ◌∷◌, some, ◌≡◌, refl, pos, arith}
use lua_eclipse_ide.Fault.{ok}
use lua_eclipse_ide.Text.{contains, show_nat}
use lua_eclipse_ide.Source.{read_source_from_string_buffer, read_file, get_file_line, numbered}
use lua_eclipse_ide.Source.Lines.{Fits, render, number_from, add_lines, get_file_line-add_lines}
use lua_eclipse_ide.Source.Read.{read_source-render, read_source_last_byte}
use lua_eclipse_ide.Source.File.{read_file-read_source, read_file_long_line}
use lua_eclipse_ide.Examples.Scene.{name, no_lines, two_lines}

two_lines-Fits : Fits 1 two_lines
unfolding contains show_nat
two_lines-Fits = (refl, omega arith, (refl, omega arith, tt))

-- A script whose last line has no newline: its last byte is not listed.
last_byte_test :
    read_source_from_string_buffer no_lines (codes "i=1\nf()") name
    ≡ ok (add_lines no_lines name (codes "1  i=1" ∷ codes "2  f(" ∷ []))
unfolding read_source_from_string_buffer show_nat
last_byte_test = refl

read_file_test :
    read_file no_lines (some (codes "i=1\nf()")) name
    ≡ ok (add_lines no_lines name (codes "1  i=1" ∷ codes "2  f()" ∷ []))
unfolding read_file read_source_from_string_buffer show_nat
read_file_test = refl

read_source-render_example :
    read_source_from_string_buffer no_lines (codes "i=1\nf()\n") name
    ≡ ok (add_lines no_lines name (number_from 1 two_lines))
read_source-render_example = read_source-render two_lines no_lines name two_lines-Fits

read_source_last_byte_example :
    read_source_from_string_buffer no_lines (codes "i=12") name
    ≡ read_source_from_string_buffer no_lines (codes "i=1;") name
read_source_last_byte_example = read_source_last_byte (codes "i=1") b'2' b';' no_lines name

read_file-read_source_example :
    read_file no_lines (some (codes "i=1\nf()\n")) name
    ≡ read_source_from_string_buffer no_lines (codes "i=1\nf()\n") name
read_file-read_source_example = read_file-read_source two_lines no_lines name two_lines-Fits

abbrev long : Bytes
long =
    codes
      "---------1---------2---------3---------4---------5---------6---------7---------8---------9---------0---------1---------2---------3---------4---------5---------6---------"

read_file_long_line_example :
    read_file no_lines (some (render two_lines ++ (long ++ codes "7\nx=3\n"))) name
    ≡ ok (add_lines no_lines name (number_from 1 two_lines))
unfolding contains
read_file_long_line_example =
    read_file_long_line two_lines long b'7' (codes "\nx=3\n") no_lines name two_lines-Fits refl refl
      (omega arith)

get_file_line-add_lines_example :
    get_file_line (add_lines no_lines name (number_from 1 two_lines)) name (pos 2)
    ≡ ok (numbered 2 (codes "f()"))
get_file_line-add_lines_example = get_file_line-add_lines two_lines no_lines name 1 refl refl
