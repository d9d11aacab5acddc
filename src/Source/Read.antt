-- ===== src/Source/Read.antt =====
-- The two readers list the lines of a script; where they do not.
use lua_eclipse_ide.Base.{
  ℕ, ◌+◌, ◌<◌, ◌≤◌, true, false, List, [], ◌∷◌, ◌++◌, Bytes, ◌≡◌, refl, sym, ap, ◌∙◌, arith, length,
  append-nil, append_assoc, length-append, ltb, lt→ltb, ◌==◌, ◌||◌, codes, fun_ext, Bool-cases, inl,
  inr,
}
use lua_eclipse_ide.Fault.{Result, ok, fault, overflow, ◌>>=◌}
use lua_eclipse_ide.Text.{contains, show_nat}
use lua_eclipse_ide.Source.{
  SourceLines, set_line_source_list, numbered, max_line, end_line, read_buffer_loop,
  read_source_from_string_buffer, is_empty,
}
use lua_eclipse_ide.Source.Lines.{render, number_from, Fits, add_lines}

module _ (all : SourceLines) (name : Bytes) where
  -- The loop goes on behind a line that has ended.
  abbrev next_line : ℕ → Bytes → Bytes → Result SourceLines
  next_line n rest line = read_buffer_loop (set_line_source_list all name line) name (n + 1) [] rest

  read_buffer_loop_end :
      (n : ℕ) (text : Bytes) (ch : ℕ) (rest : Bytes)
      → (ch == b'\n' || is_empty rest) ≡ true
      → read_buffer_loop all name n text (ch ∷ rest) ≡ (end_line n text >>= next_line n rest)
  unfolding read_buffer_loop
  read_buffer_loop_end n text ch rest h = rw (h, read_buffer_loop)

  read_buffer_loop_byte :
      (n : ℕ) (text : Bytes) (ch : ℕ) (rest : Bytes)
      → (ch == b'\n' || is_empty rest) ≡ false
      → length text < max_line
      → read_buffer_loop all name n text (ch ∷ rest)
        ≡ read_buffer_loop all name n (text ++ ch ∷ []) rest
  unfolding read_buffer_loop
  read_buffer_loop_byte n text ch rest h f =
      rw (h, lt→ltb (length text) max_line f, read_buffer_loop)

  read_buffer_loop_full :
      (n : ℕ) (text : Bytes) (ch : ℕ) (rest : Bytes)
      → (ch == b'\n' || is_empty rest) ≡ false
      → ltb (length text) max_line ≡ false
      → read_buffer_loop all name n text (ch ∷ rest) ≡ fault overflow
  unfolding read_buffer_loop
  read_buffer_loop_full n text ch rest h f = rw (h, f, read_buffer_loop)

is_empty-append : (l : Bytes) (c : ℕ) (rest : Bytes) → is_empty (l ++ c ∷ rest) ≡ false
is_empty-append [] c rest = refl
is_empty-append (x ∷ l) c rest = refl

-- A line with no newline in it is gathered byte by byte.
read_buffer_loop_line :
    (l : Bytes) (all : SourceLines) (name : Bytes) (n : ℕ) (text rest : Bytes)
    → contains b'\n' l ≡ false
    → length text + length l < max_line
    → read_buffer_loop all name n text (l ++ b'\n' ∷ rest)
      ≡ (end_line n (text ++ l) >>= next_line all name n rest)
unfolding contains
read_buffer_loop_line [] all name n text rest h f =
    rw append-nil (read_buffer_loop_end all name n text b'\n' rest refl)
read_buffer_loop_line (c ∷ l) all name n text rest h f =
    read_buffer_loop_byte all name n text c (l ++ b'\n' ∷ rest)
      (ground (arith, is_empty-append l b'\n' rest)) (omega arith)
    ∙ read_buffer_loop_line l all name n (text ++ c ∷ []) rest (ground arith)
        (omega (arith, length-append {0} text (c ∷ [])))
    ∙ rw append_assoc

pub length-numbered : (n : ℕ) (text : Bytes) → length text ≤ length (numbered n text)
length-numbered n text = omega (arith, length-append {0} (show_nat n) (codes "  " ++ text))

end_line-fits :
    (n : ℕ) (l : Bytes) → length (numbered n l) < max_line → end_line n l ≡ ok (numbered n l)
end_line-fits n l f = ground (arith, length-numbered n l)

read_buffer_loop-render :
    (ls : List Bytes) (all : SourceLines) (name : Bytes) (n : ℕ)
    → Fits n ls
    → read_buffer_loop all name n [] (render ls) ≡ ok (add_lines all name (number_from n ls))
read_buffer_loop-render [] all name n f = unfold read_buffer_loop in refl
read_buffer_loop-render (l ∷ ls) all name n f =
    read_buffer_loop_line l all name n [] (render ls) f.0 (omega (arith, length-numbered n l))
    ∙ rw (end_line-fits n l f.1)
        (read_buffer_loop-render ls (set_line_source_list all name (numbered n l)) name (n + 1) f.2)

-- The last byte of the script is dropped, whatever it is.
read_buffer_loop_last :
    (s : Bytes) (all : SourceLines) (name : Bytes) (n : ℕ) (text : Bytes) (c d : ℕ)
    → read_buffer_loop all name n text (s ++ c ∷ [])
      ≡ read_buffer_loop all name n text (s ++ d ∷ [])
read_buffer_loop_last [] all name n text c d =
    read_buffer_loop_end all name n text c [] (ground arith)
    ∙ sym (read_buffer_loop_end all name n text d [] (ground arith))
read_buffer_loop_last (x ∷ s) all name n text c d = elim (Bool-cases (x == b'\n')) [
  | inl newline ↦
      read_buffer_loop_end all name n text x (s ++ c ∷ []) (ground arith)
      ∙ ap (λ (next : Bytes → Result SourceLines). end_line n text >>= next)
          (fun_ext λ line.
            read_buffer_loop_last s (set_line_source_list all name line) name (n + 1) [] c d)
      ∙ sym (read_buffer_loop_end all name n text x (s ++ d ∷ []) (ground arith))
  | inr other ↦ elim (Bool-cases (ltb (length text) max_line)) [
    | inl room ↦
        read_buffer_loop_byte all name n text x (s ++ c ∷ [])
          (ground (arith, is_empty-append s c [])) (ground arith)
        ∙ read_buffer_loop_last s all name n (text ++ x ∷ []) c d
        ∙ sym (
            read_buffer_loop_byte all name n text x (s ++ d ∷ [])
              (ground (arith, is_empty-append s d [])) (ground arith))
    | inr full ↦
        read_buffer_loop_full all name n text x (s ++ c ∷ [])
          (ground (arith, is_empty-append s c [])) full
        ∙ sym (
            read_buffer_loop_full all name n text x (s ++ d ∷ [])
              (ground (arith, is_empty-append s d [])) full)
  ]
]

-- A script of lines that fit, each ended by a newline, is listed line by line, numbered from 1;
-- nothing else is changed and nothing overflows.
pub read_source-render :
    (ls : List Bytes) (all : SourceLines) (name : Bytes)
    → Fits 1 ls
    → read_source_from_string_buffer all (render ls) name
      ≡ ok (add_lines all name (number_from 1 ls))
unfolding read_source_from_string_buffer
read_source-render ls all name = read_buffer_loop-render ls all name 1

-- The outcome does not depend on the last byte of the script: that byte is never listed.
pub read_source_last_byte :
    (s : Bytes) (c d : ℕ) (all : SourceLines) (name : Bytes)
    → read_source_from_string_buffer all (s ++ c ∷ []) name
      ≡ read_source_from_string_buffer all (s ++ d ∷ []) name
unfolding read_source_from_string_buffer
read_source_last_byte s c d all name = read_buffer_loop_last s all name 1 [] c d
