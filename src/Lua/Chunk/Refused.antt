-- ===== src/Lua/Chunk/Refused.antt =====
-- Saving a chunk to a writer that fails (open-ldb/ldump.c).
use lua_eclipse_ide.Base.{
  Bool, false, List, [], ◌∷◌, Bytes, Option, none, some, ℤ, pos, eq_int, ◌≡◌, refl,
}
use lua_eclipse_ide.Lua.Chunk.{
  LocVar, Constant, nil_constant, boolean_constant, number_constant, string_constant, ProtoFields,
  header, Proto, Protos, proto, no_protos, add_proto,
}
use lua_eclipse_ide.Lua.Chunk.Dump.{
  DumpState, dump_block, dump_char, dump_int, dump_number, dump_string, dump_code, dump_constant,
  dump_each, dump_locvar, dump_debug, dump_fields, dump_function, dump_functions, dump,
}

module _ {ℓ} {W : Type ℓ} (writer : W → Bytes → W × ℤ) (d : DumpState W)
    (failed : eq_int d.status (pos 0) ≡ false) where
  dump_block-failed : (b : Bytes) → dump_block writer b d ≡ d
  unfolding dump_block
  dump_block-failed b = rw failed

  dump_char-failed : (y : ℤ) → dump_char writer y d ≡ d
  unfolding dump_char
  dump_char-failed y = dump_block-failed _

  dump_int-failed : (x : ℤ) → dump_int writer x d ≡ d
  unfolding dump_int
  dump_int-failed x = dump_block-failed _

  dump_string-failed : (s : Option Bytes) → dump_string writer s d ≡ d
  unfolding dump_string
  dump_string-failed none = dump_block-failed _
  dump_string-failed (some s) = simp dump_block-failed

  dump_constant-failed : (c : Constant) → dump_constant writer c d ≡ d
  unfolding dump_constant dump_number
  dump_constant-failed nil_constant = dump_char-failed _
  dump_constant-failed (boolean_constant b) = simp dump_char-failed
  dump_constant-failed (number_constant n) = simp (dump_char-failed, dump_block-failed)
  dump_constant-failed (string_constant s) = simp (dump_char-failed, dump_string-failed)

  dump_locvar-failed : (v : LocVar) → dump_locvar writer v d ≡ d
  unfolding dump_locvar
  dump_locvar-failed v = simp (dump_string-failed, dump_int-failed)

  dump_each-failed {κ} :
      {A : Type κ} (f : A → DumpState W → DumpState W)
      → ((x : A) → f x d ≡ d)
      → (xs : List A) → dump_each writer f xs d ≡ d
  unfolding dump_each
  dump_each-failed f h [] = refl
  dump_each-failed f h (x ∷ xs) = rw (h x, dump_each-failed f h xs)

  dump_fields-failed : (f : ProtoFields) (p : Option Bytes) → dump_fields writer f p d ≡ d
  unfolding dump_fields dump_code
  dump_fields-failed f p = simp (
    dump_string-failed,
    dump_int-failed,
    dump_char-failed,
    dump_block-failed,
    dump_each-failed (dump_constant writer) dump_constant-failed,
  )

  dump_debug-failed : (f : ProtoFields) → dump_debug writer f d ≡ d
  unfolding dump_debug
  dump_debug-failed f = simp (
    dump_int-failed,
    dump_block-failed,
    dump_each-failed (dump_locvar writer) dump_locvar-failed,
    dump_each-failed (dump_string writer) dump_string-failed,
  )

  mutual
    unfolding dump_function dump_functions

    -- After a write that failed nothing more is written, and the status stays.
    pub dump_function-failed : (f : Proto) (p : Option Bytes) → dump_function writer f p d ≡ d
    dump_function-failed (proto f fs) p =
        simp (
          dump_fields-failed,
          dump_int-failed,
          dump_functions-failed fs f.source,
          dump_debug-failed,
        )

    dump_functions-failed : (fs : Protos) (p : Option Bytes) → dump_functions writer fs p d ≡ d
    dump_functions-failed no_protos p = refl
    dump_functions-failed (add_proto f fs) p =
        rw (dump_function-failed f p, dump_functions-failed fs p)

-- If the writer fails at the header, it is not called again: `luaU_dump` ends with the status that
-- the writer gave, and leaves what it left.
dump_refused {ℓ} :
    {W : Type ℓ} (writer : W → Bytes → W × ℤ) (f : Proto) (target : W) (strip : Bool)
    → eq_int (writer target header).1 (pos 0) ≡ false
    → dump writer f target strip ≡ record {
      target = (writer target header).0;
      strip = strip;
      status = (writer target header).1;
    }
unfolding dump dump_block eq_int
dump_refused writer f target strip h = dump_function-failed writer _ h f none
