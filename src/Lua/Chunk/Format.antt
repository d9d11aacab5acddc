-- ===== src/Lua/Chunk/Format.antt =====
-- The format of a precompiled chunk, as open-ldb/ldump.c writes it.
use lua_eclipse_ide.Base.{
  suc, Bool, ◌||◌, List, [], ◌∷◌, ◌++◌, Bytes, Option, none, some, length, ℤ, pos, if◌then◌else◌,
}
use lua_eclipse_ide.Lua.Words.{word, to_word}
use lua_eclipse_ide.Lua.Chunk.{
  LocVar, Constant, nil_constant, boolean_constant, number_constant, string_constant, ProtoFields,
  Proto, Protos, proto, no_protos, add_proto,
}
use lua_eclipse_ide.Lua.Chunk.Dump.{
  DumpState, same_source, count_protos, unless_stripped, int_word, concat_map,
}

abbrev pub char_text : ℤ → Bytes
char_text y = to_word 256 y ∷ []

unfoldable pub string_text : Option Bytes → Bytes
string_text none = word 8 0
string_text (some s) = word 8 (suc (length s)) ++ (s ++ 0 ∷ [])

unfoldable pub constant_text : Constant → Bytes
constant_text nil_constant = char_text (pos 0)
constant_text (boolean_constant b) = char_text (pos 1) ++ char_text b
constant_text (number_constant n) = char_text (pos 3) ++ n
constant_text (string_constant s) = char_text (pos 4) ++ string_text s

unfoldable pub locvar_text : LocVar → Bytes
locvar_text v = string_text v.varname ++ (int_word v.startpc ++ int_word v.endpc)

abbrev pub list_text {ℓ} : {A : Type ℓ} → (A → Bytes) → List A → Bytes
list_text f xs = int_word (pos (length xs)) ++ concat_map f xs

abbrev pub saved_source : Bool → Option Bytes → Option Bytes → Option Bytes
saved_source strip source p = if same_source source p || strip then none else source

unfoldable pub fields_text : Bool → Option Bytes → ProtoFields → Bytes
fields_text strip p f =
    string_text (saved_source strip f.source p)
    ++ (int_word f.linedefined
        ++ (int_word f.lastlinedefined
            ++ (char_text (pos f.nups)
                ++ (char_text (pos f.numparams)
                    ++ (char_text (pos f.is_vararg)
                        ++ (char_text (pos f.maxstacksize)
                            ++ (list_text (word 4) f.code ++ list_text constant_text f.k)))))))

unfoldable pub debug_text : Bool → ProtoFields → Bytes
debug_text strip f =
    list_text int_word (unless_stripped strip f.lineinfo)
    ++ (list_text locvar_text (unless_stripped strip f.locvars)
        ++ list_text string_text (unless_stripped strip f.upvalues))

unfoldable mutual
  pub function_text : Bool → Option Bytes → Proto → Bytes
  function_text strip p (proto f fs) =
      fields_text strip p f
      ++ (int_word (pos (count_protos fs))
          ++ functions_text strip f.source fs
          ++ debug_text strip f)

  pub functions_text : Bool → Option Bytes → Protos → Bytes
  functions_text strip p no_protos = []
  functions_text strip p (add_proto f fs) = function_text strip p f ++ functions_text strip p fs

abbrev pub appending : Bytes → Bool → DumpState Bytes
appending t b = record { target = t; strip = b; status = pos 0 }
