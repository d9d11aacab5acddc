-- ===== src/Lua/Chunk/Dump.antt =====
-- Saving a chunk (open-ldb/ldump.c). The writer is the caller's: it is handed a block of bytes
-- and gives a status, which is 0 while all is well.
use lua_eclipse_ide.Base.{
  ℕ, suc, Bool, true, false, ◌||◌, List, [], ◌∷◌, ◌++◌, Bytes, Option, none, some, length, ℤ, pos,
  eq_int, eq_bytes, if◌then◌else◌,
}
use lua_eclipse_ide.Lua.Words.{word, to_word, int_values}
use lua_eclipse_ide.Lua.Chunk.{
  LocVar, Constant, nil_constant, boolean_constant, number_constant, string_constant, ProtoFields,
  Proto, Protos, proto, no_protos, add_proto, header,
}

pub record DumpState {ℓ} (W : Type ℓ) : Type ℓ where
  pub target : W
  pub strip : Bool
  pub status : ℤ

infixl 1 ◌|>◌
abbrev pub ◌|>◌ {ℓ κ} : {A : Type ℓ} {B : Type κ} → A → (A → B) → B
x |> f = f x

-- `f->source == p`
unfoldable pub same_source : Option Bytes → Option Bytes → Bool
same_source none none = true
same_source (some s) (some p) = eq_bytes s p
same_source _ _ = false

abbrev pub count_protos : Protos → ℕ
count_protos no_protos = 0
count_protos (add_proto f fs) = suc (count_protos fs)

abbrev pub unless_stripped {ℓ} : {A : Type ℓ} → Bool → List A → List A
unless_stripped strip xs = if strip then [] else xs

abbrev pub int_word : ℤ → Bytes
int_word x = word 4 (to_word int_values x)

abbrev pub concat_map {ℓ} : {A : Type ℓ} → (A → Bytes) → List A → Bytes
concat_map f [] = []
concat_map f (x ∷ xs) = f x ++ concat_map f xs

module _ {ℓ} {W : Type ℓ} (writer : W → Bytes → W × ℤ) where
  abbrev pub written : W × ℤ → DumpState W → DumpState W
  written (target, status) d = record d { target = target; status = status }

  unfoldable pub dump_block : Bytes → DumpState W → DumpState W
  dump_block b d = if eq_int d.status (pos 0) then written (writer d.target b) d else d

  unfoldable pub dump_char : ℤ → DumpState W → DumpState W
  dump_char y = dump_block (to_word 256 y ∷ [])

  unfoldable pub dump_int : ℤ → DumpState W → DumpState W
  dump_int x = dump_block (int_word x)

  unfoldable pub dump_number : Bytes → DumpState W → DumpState W
  dump_number x = dump_block x

  -- The size that is written counts the zero at the end.
  unfoldable pub dump_string : Option Bytes → DumpState W → DumpState W
  dump_string none d = d |> dump_block (word 8 0)
  dump_string (some s) d = d |> dump_block (word 8 (suc (length s))) |> dump_block (s ++ 0 ∷ [])

  unfoldable pub dump_code : List ℕ → DumpState W → DumpState W
  dump_code code d = d |> dump_int (pos (length code)) |> dump_block (concat_map (word 4) code)

  unfoldable pub dump_constant : Constant → DumpState W → DumpState W
  dump_constant nil_constant d = d |> dump_char (pos 0)
  dump_constant (boolean_constant b) d = d |> dump_char (pos 1) |> dump_char b
  dump_constant (number_constant n) d = d |> dump_char (pos 3) |> dump_number n
  dump_constant (string_constant s) d = d |> dump_char (pos 4) |> dump_string s

  -- A loop over the elements of an array.
  unfoldable pub dump_each {κ} :
      {A : Type κ} → (A → DumpState W → DumpState W) → List A → DumpState W → DumpState W
  dump_each f [] d = d
  dump_each f (x ∷ xs) d = dump_each f xs (f x d)

  unfoldable pub dump_locvar : LocVar → DumpState W → DumpState W
  dump_locvar v d = d |> dump_string v.varname |> dump_int v.startpc |> dump_int v.endpc

  abbrev pub dump_list {κ} :
      {A : Type κ} → (A → DumpState W → DumpState W) → List A → DumpState W → DumpState W
  dump_list f xs d = d |> dump_int (pos (length xs)) |> dump_each f xs

  abbrev pub dump_lineinfo : List ℤ → DumpState W → DumpState W
  dump_lineinfo lines d =
      d |> dump_int (pos (length lines)) |> dump_block (concat_map int_word lines)

  unfoldable pub dump_debug : ProtoFields → DumpState W → DumpState W
  dump_debug f d =
      d
      |> dump_lineinfo (unless_stripped d.strip f.lineinfo)
      |> dump_list dump_locvar (unless_stripped d.strip f.locvars)
      |> dump_list dump_string (unless_stripped d.strip f.upvalues)

  -- What `DumpFunction` writes before the functions that the function defines.
  unfoldable pub dump_fields : ProtoFields → Option Bytes → DumpState W → DumpState W
  dump_fields f p d =
      d
      |> dump_string (if same_source f.source p || d.strip then none else f.source)
      |> dump_int f.linedefined
      |> dump_int f.lastlinedefined
      |> dump_char (pos f.nups)
      |> dump_char (pos f.numparams)
      |> dump_char (pos f.is_vararg)
      |> dump_char (pos f.maxstacksize)
      |> dump_code f.code
      |> dump_list dump_constant f.k

  unfoldable mutual
    pub dump_function : Proto → Option Bytes → DumpState W → DumpState W
    dump_function (proto f fs) p d =
        d
        |> dump_fields f p
        |> dump_int (pos (count_protos fs))
        |> dump_functions fs f.source
        |> dump_debug f

    pub dump_functions : Protos → Option Bytes → DumpState W → DumpState W
    dump_functions no_protos p d = d
    dump_functions (add_proto f fs) p d = d |> dump_function f p |> dump_functions fs p

  -- The status and what the writer was left with.
  unfoldable pub dump : Proto → W → Bool → DumpState W
  dump f target strip =
      record { target = target; strip = strip; status = pos 0 }
      |> dump_block header
      |> dump_function f none

-- `writer` of open-ldb/lstrlib.c, which `string.dump` saves with: it adds to a buffer.
unfoldable pub append_writer : Bytes → Bytes → Bytes × ℤ
append_writer buffer b = (buffer ++ b, pos 0)
