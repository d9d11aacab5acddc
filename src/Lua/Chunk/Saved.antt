-- ===== src/Lua/Chunk/Saved.antt =====
-- What `string.dump` saves (open-ldb/ldump.c with the writer of open-ldb/lstrlib.c) is the format.
use lua_eclipse_ide.Base.{
  ℕ, Bool, List, [], ◌∷◌, ◌++◌, ◌≡◌, refl, append-nil, append_assoc, Bytes, Option, none, some,
  length, ℤ, pos, eq_int,
}
use lua_eclipse_ide.Lua.Words.{word}
use lua_eclipse_ide.Lua.Chunk.{
  LocVar, Constant, nil_constant, boolean_constant, number_constant, string_constant, ProtoFields,
  Proto, Protos, proto, no_protos, add_proto, header,
}
use lua_eclipse_ide.Lua.Chunk.Dump.{
  DumpState, append_writer, int_word, concat_map, dump_block, dump_char, dump_int, dump_number,
  dump_string, dump_code, dump_constant, dump_each, dump_locvar, dump_list, dump_lineinfo,
  dump_debug, dump_fields, dump_function, dump_functions, dump,
}
use lua_eclipse_ide.Lua.Chunk.Format.{
  char_text, string_text, constant_text, locvar_text, list_text, fields_text, debug_text,
  function_text, functions_text,
}

abbrev pub appending : Bytes → Bool → DumpState Bytes
appending t b = record { target = t; strip = b; status = pos 0 }

dump_block-text :
    (s t : Bytes) (b : Bool) → dump_block append_writer s (appending t b) ≡ appending (t ++ s) b
unfolding dump_block append_writer eq_int
dump_block-text s t b = refl

dump_char-text :
    (y : ℤ) (t : Bytes) (b : Bool)
    → dump_char append_writer y (appending t b) ≡ appending (t ++ char_text y) b
unfolding dump_char
dump_char-text y t b = dump_block-text (char_text y) t b

dump_int-text :
    (x : ℤ) (t : Bytes) (b : Bool)
    → dump_int append_writer x (appending t b) ≡ appending (t ++ int_word x) b
unfolding dump_int
dump_int-text x t b = dump_block-text (int_word x) t b

dump_string-text :
    (s : Option Bytes) (t : Bytes) (b : Bool)
    → dump_string append_writer s (appending t b) ≡ appending (t ++ string_text s) b
unfolding dump_string string_text
dump_string-text none t b = dump_block-text (word 8 0) t b
dump_string-text (some s) t b = simp (dump_block-text, append_assoc)

dump_constant-text :
    (c : Constant) (t : Bytes) (b : Bool)
    → dump_constant append_writer c (appending t b) ≡ appending (t ++ constant_text c) b
unfolding dump_constant constant_text dump_number
dump_constant-text nil_constant t b = dump_char-text (pos 0) t b
dump_constant-text (boolean_constant c) t b = simp (dump_char-text, append_assoc)
dump_constant-text (number_constant n) t b = simp (dump_char-text, dump_block-text, append_assoc)
dump_constant-text (string_constant s) t b = simp (dump_char-text, dump_string-text, append_assoc)

dump_locvar-text :
    (v : LocVar) (t : Bytes) (b : Bool)
    → dump_locvar append_writer v (appending t b) ≡ appending (t ++ locvar_text v) b
unfolding dump_locvar locvar_text
dump_locvar-text v t b = simp (dump_string-text, dump_int-text, append_assoc)

module _ {ℓ} {A : Type ℓ} where
  dump_each-text :
      (f : A → DumpState Bytes → DumpState Bytes) (g : A → Bytes)
      → ((x : A) (t : Bytes) (b : Bool) → f x (appending t b) ≡ appending (t ++ g x) b)
      → (xs : List A) (t : Bytes) (b : Bool)
      → dump_each append_writer f xs (appending t b) ≡ appending (t ++ concat_map g xs) b
  unfolding dump_each
  dump_each-text f g h [] t b = simp append-nil
  dump_each-text f g h (x ∷ xs) t b =
      rw (h x t b, dump_each-text f g h xs (t ++ g x) b, append_assoc t (g x) (concat_map g xs))

  dump_list-text :
      (f : A → DumpState Bytes → DumpState Bytes) (g : A → Bytes)
      → ((x : A) (t : Bytes) (b : Bool) → f x (appending t b) ≡ appending (t ++ g x) b)
      → (xs : List A) (t : Bytes) (b : Bool)
      → dump_list append_writer f xs (appending t b) ≡ appending (t ++ list_text g xs) b
  dump_list-text f g h xs t b = rw (
    dump_int-text (pos (length xs)) t b,
    dump_each-text f g h xs (t ++ int_word (pos (length xs))) b,
    append_assoc t (int_word (pos (length xs))) (concat_map g xs),
  )

dump_code-text :
    (c : List ℕ) (t : Bytes) (b : Bool)
    → dump_code append_writer c (appending t b) ≡ appending (t ++ list_text (word 4) c) b
unfolding dump_code
dump_code-text c t b = simp (dump_int-text, dump_block-text, append_assoc)

dump_lineinfo-text :
    (c : List ℤ) (t : Bytes) (b : Bool)
    → dump_lineinfo append_writer c (appending t b) ≡ appending (t ++ list_text int_word c) b
dump_lineinfo-text c t b = simp (dump_int-text, dump_block-text, append_assoc)

dump_fields-text :
    (f : ProtoFields) (p : Option Bytes) (t : Bytes) (b : Bool)
    → dump_fields append_writer f p (appending t b) ≡ appending (t ++ fields_text b p f) b
unfolding dump_fields fields_text
dump_fields-text f p t b = simp (
  dump_string-text,
  dump_int-text,
  dump_char-text,
  dump_code-text,
  dump_each-text (dump_constant append_writer) constant_text dump_constant-text,
  append_assoc,
)

dump_debug-text :
    (f : ProtoFields) (t : Bytes) (b : Bool)
    → dump_debug append_writer f (appending t b) ≡ appending (t ++ debug_text b f) b
unfolding dump_debug debug_text
dump_debug-text f t b = simp (
  dump_lineinfo-text,
  dump_list-text (dump_locvar append_writer) locvar_text dump_locvar-text,
  dump_list-text (dump_string append_writer) string_text dump_string-text,
  append_assoc,
)

mutual
  unfolding dump_function dump_functions function_text functions_text

  dump_function-text :
      (f : Proto) (p : Option Bytes) (t : Bytes) (b : Bool)
      → dump_function append_writer f p (appending t b) ≡ appending (t ++ function_text b p f) b
  dump_function-text (proto f fs) p t b = simp (
    dump_fields-text,
    dump_int-text,
    dump_functions-text fs f.source,
    dump_debug-text,
    append_assoc,
  )

  dump_functions-text :
      (fs : Protos) (p : Option Bytes) (t : Bytes) (b : Bool)
      → dump_functions append_writer fs p (appending t b) ≡ appending (t ++ functions_text b p fs) b
  dump_functions-text no_protos p t b = simp append-nil
  dump_functions-text (add_proto f fs) p t b =
      simp (dump_function-text f p, dump_functions-text fs p, append_assoc)

-- `string.dump` saves the header and the function, and the status is that all is well.
pub dump-function_text :
    (f : Proto) (buffer : Bytes) (strip : Bool)
    → dump append_writer f buffer strip
      ≡ appending (buffer ++ (header ++ function_text strip none f)) strip
unfolding dump
dump-function_text f buffer strip = rw (
  dump_block-text header buffer strip,
  dump_function-text f none (buffer ++ header) strip,
  append_assoc buffer header (function_text strip none f),
)
