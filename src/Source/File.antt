-- ===== src/Source/File.antt =====
-- `readFile` lists a script on disk as the other reader lists one in memory; a line of 170 bytes or
-- more ends the listing.
use lua_eclipse_ide.Base.{
  ℕ, ◌+◌, ◌<◌, true, false, some, List, [], ◌∷◌, ◌++◌, Bytes, ◌≡◌, ◌≢◌, refl, sym, ap, ◌∙◌, arith,
  length, append-nil, append_assoc, length-append, lt→ltb, ◌==◌,
}
use lua_eclipse_ide.Fault.{ok, ◌>>=◌}
use lua_eclipse_ide.Text.{contains}
use lua_eclipse_ide.Source.{
  SourceLines, set_line_source_list, numbered, max_line, checked_line, read_file_loop, read_file,
  read_source_from_string_buffer,
}
use lua_eclipse_ide.Source.Lines.{render, number_from, Fits, add_lines}
use lua_eclipse_ide.Source.Read.{length-numbered, read_source-render}

module _ (all : SourceLines) (name : Bytes) where
  read_file_loop_end :
      (i : ℕ) (line rest : Bytes)
      → read_file_loop all name i line (b'\n' ∷ rest) ≡ (
          checked_line i line >>= λ text.
          read_file_loop (set_line_source_list all name text) name (i + 1) [] rest)
  unfolding read_file_loop
  read_file_loop_end i line rest = refl

  read_file_loop_byte :
      (i : ℕ) (line : Bytes) (ch : ℕ) (rest : Bytes)
      → (ch == b'\n') ≡ false
      → length line < 169
      → read_file_loop all name i line (ch ∷ rest)
        ≡ read_file_loop all name i (line ++ ch ∷ []) rest
  unfolding read_file_loop
  read_file_loop_byte i line ch rest h f =
      let room : (length line == 169) ≡ false = ground arith in rw (h, room, read_file_loop)

  read_file_loop_long :
      (i : ℕ) (line : Bytes) (ch : ℕ) (rest : Bytes)
      → (ch == b'\n') ≡ false
      → length line ≡ 169
      → read_file_loop all name i line (ch ∷ rest) ≡ ok all
  unfolding read_file_loop
  read_file_loop_long i line ch rest h f =
      let full : (length line == 169) ≡ true = ground arith in rw (h, full, read_file_loop)

-- The bytes of a line, up to what `getline` has room for.
read_file_loop_bytes :
    (l : Bytes) (all : SourceLines) (name : Bytes) (i : ℕ) (line rest : Bytes)
    → contains b'\n' l ≡ false
    → length line + length l < max_line
    → read_file_loop all name i line (l ++ rest) ≡ read_file_loop all name i (line ++ l) rest
unfolding contains
read_file_loop_bytes [] all name i line rest h f = rw append-nil
read_file_loop_bytes (c ∷ l) all name i line rest h f =
    read_file_loop_byte all name i line c (l ++ rest) (ground arith) (omega arith)
    ∙ read_file_loop_bytes l all name i (line ++ c ∷ []) rest (ground arith)
        (omega (arith, length-append {0} line (c ∷ [])))
    ∙ ap (λ (t : Bytes). read_file_loop all name i t rest) (append_assoc line (c ∷ []) l)

read_file_loop-render :
    (ls : List Bytes) (all : SourceLines) (name : Bytes) (i : ℕ) (rest : Bytes)
    → Fits i ls
    → read_file_loop all name i [] (render ls ++ rest)
      ≡ read_file_loop (add_lines all name (number_from i ls)) name (i + length ls) [] rest
read_file_loop-render [] all name i rest f =
    ap (λ (j : ℕ). read_file_loop all name j [] rest) (omega arith)
read_file_loop-render (l ∷ ls) all name i rest f =
    ap (read_file_loop all name i []) (append_assoc l (b'\n' ∷ render ls) rest)
    ∙ read_file_loop_bytes l all name i [] (b'\n' ∷ (render ls ++ rest)) f.0
        (omega (arith, length-numbered i l))
    ∙ read_file_loop_end all name i l (render ls ++ rest)
    ∙ rw (lt→ltb (length (numbered i l)) max_line f.1) (
        read_file_loop-render ls (set_line_source_list all name (numbered i l)) name (i + 1) rest
          f.2
        ∙ ap
            (λ (j : ℕ). read_file_loop (add_lines all name (number_from i (l ∷ ls))) name j [] rest)
            (omega arith))

-- On a script of lines that fit, each ended by a newline, the two readers agree.
pub read_file-read_source :
    (ls : List Bytes) (all : SourceLines) (name : Bytes)
    → Fits 1 ls
    → read_file all (some (render ls)) name ≡ read_source_from_string_buffer all (render ls) name
unfolding read_file
read_file-read_source ls all name f =
    ap (read_file_loop all name 1 []) (sym (append-nil (render ls)))
    ∙ read_file_loop-render ls all name 1 [] f
    ∙ unfold read_file_loop in sym (read_source-render ls all name f)

-- `readFile` stops at the first line of 170 bytes or more: that line and all that follows it are
-- left out of the listing.
pub read_file_long_line :
    (ls : List Bytes) (long : Bytes) (ch : ℕ) (rest : Bytes) (all : SourceLines) (name : Bytes)
    → Fits 1 ls
    → contains b'\n' long ≡ false
    → length long ≡ 169
    → ch ≢ b'\n'
    → read_file all (some (render ls ++ (long ++ ch ∷ rest))) name
      ≡ ok (add_lines all name (number_from 1 ls))
unfolding read_file
read_file_long_line ls long ch rest all name f h e ne =
    read_file_loop-render ls all name 1 (long ++ ch ∷ rest) f
    ∙ read_file_loop_bytes long (add_lines all name (number_from 1 ls)) name (1 + length ls) []
        (ch ∷ rest) h (omega arith)
    ∙ read_file_loop_long (add_lines all name (number_from 1 ls)) name (1 + length ls) long ch rest
        (ground arith) e
