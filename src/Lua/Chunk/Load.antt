-- ===== src/Lua/Chunk/Load.antt =====
-- Loading a chunk (open-ldb/lundump.c). The input is the bytes that are left in the `ZIO`; a
-- `Loader` is a step that takes bytes from it or ends with an error.
use lua_eclipse_ide.Base.{
  ℕ, zero, suc, List, [], ◌∷◌, Bytes, Option, none, some, length, take, ℤ, pos, negsuc, eq_bytes,
  if◌then◌else◌, codes,
}
use lua_eclipse_ide.Lua.Words.{word_value, from_word, int_values}
use lua_eclipse_ide.Lua.Chunk.{
  LocVar, Constant, nil_constant, boolean_constant, number_constant, string_constant, ProtoFields,
  Proto, Protos, proto, no_protos, add_proto, header,
}

-- Two are no errors of the source: `unfinished` is the model running out of fuel, and `stray_read` the
-- undefined behaviour of a check that reads outside an array.
pub data LoadError : Type 0 where
  unexpected_end bad_integer bad_constant bad_code bad_header unfinished stray_read : LoadError

pub data Loaded {ℓ} (A : Type ℓ) : Type ℓ where
  failed : LoadError → Loaded A
  loaded : A → Bytes → Loaded A

abbrev pub Loader {ℓ} : Type ℓ → Type ℓ
Loader A = Bytes → Loaded A

infixl 5 ◌>>=◌
unfoldable pub ◌>>=◌ {ℓ κ} : {A : Type ℓ} {B : Type κ} → Loader A → (A → Loader B) → Loader B
◌>>=◌ m f s = elim (m s) [ loaded a r ↦ f a r | failed e ↦ failed e ]

unfoldable pub pure {ℓ} : {A : Type ℓ} → A → Loader A
pure a s = loaded a s

unfoldable pub fail {ℓ} : {A : Type ℓ} → LoadError → Loader A
fail e s = failed e

unfoldable pub load_byte : Loader ℕ
load_byte [] = failed unexpected_end
load_byte (b ∷ s) = loaded b s

unfoldable pub load_times {ℓ} : {A : Type ℓ} → ℕ → Loader A → Loader (List A)
load_times zero m = pure []
load_times (suc n) m = do x ← m; xs ← load_times n m; pure (x ∷ xs)

-- `LoadBlock` takes `size` bytes, or ends with an error if there are not so many.
unfoldable pub load_block : ℕ → Loader Bytes
load_block size = load_times size load_byte

unfoldable pub load_char : Loader ℤ
load_char = do b ← load_byte; pure (from_word 256 b)

unfoldable pub load_word : ℕ → Loader ℕ
load_word size = do b ← load_block size; pure (word_value b)

-- An `int` that may be negative, as the elements of `lineinfo` are read.
unfoldable pub load_any_int : Loader ℤ
load_any_int = do w ← load_word 4; pure (from_word int_values w)

abbrev pub check_int : ℤ → Loader ℕ
check_int (pos n) = pure n
check_int (negsuc n) = fail bad_integer

unfoldable pub load_int : Loader ℕ
load_int = do x ← load_any_int; check_int x

unfoldable pub load_number : Loader Bytes
load_number = load_block 8

-- A size of 0 is the null pointer; the last byte is the zero at the end.
abbrev pub load_sized : ℕ → Loader (Option Bytes)
load_sized zero = pure none
load_sized (suc n) = do b ← load_block (suc n); pure (some (take n b))

unfoldable pub load_string : Loader (Option Bytes)
load_string = do size ← load_word 8; load_sized size

unfoldable pub load_list {ℓ} : {A : Type ℓ} → Loader A → Loader (List A)
load_list m = do n ← load_int; load_times n m

unfoldable pub load_code : Loader (List ℕ)
load_code = load_list (load_word 4)

-- The switch on the type of a constant.
abbrev pub load_constant_of : ℤ → Loader Constant
load_constant_of (pos zero) = pure nil_constant
load_constant_of (pos (suc zero)) = do b ← load_char; pure (boolean_constant b)
load_constant_of (pos (suc (suc (suc zero)))) = do n ← load_number; pure (number_constant n)
load_constant_of (pos (suc (suc (suc (suc zero))))) = do s ← load_string; pure (string_constant s)
load_constant_of _ = fail bad_constant

unfoldable pub load_constant : Loader Constant
load_constant = do t ← load_char; load_constant_of t

unfoldable pub load_locvar : Loader LocVar
load_locvar = do
  varname ← load_string
  startpc ← load_int
  endpc ← load_int
  pure (record { varname = varname; startpc = pos startpc; endpc = pos endpc })

abbrev pub source_or : Option Bytes → Option Bytes → Option Bytes
source_or none p = p
source_or (some s) p = some s

-- What `LoadFunction` reads before the functions that the function defines.
unfoldable pub load_fields : Option Bytes → Loader ProtoFields
load_fields p = do
  source ← load_string
  linedefined ← load_int
  lastlinedefined ← load_int
  nups ← load_byte
  numparams ← load_byte
  is_vararg ← load_byte
  maxstacksize ← load_byte
  code ← load_code
  k ← load_list load_constant
  pure (record {
    source = source_or source p;
    linedefined = pos linedefined;
    lastlinedefined = pos lastlinedefined;
    nups = nups;
    numparams = numparams;
    is_vararg = is_vararg;
    maxstacksize = maxstacksize;
    code = code;
    k = k;
    lineinfo = [];
    locvars = [];
    upvalues = [];
  })

unfoldable pub load_debug : ProtoFields → Loader ProtoFields
load_debug f = do
  lineinfo ← load_list load_any_int
  locvars ← load_list load_locvar
  upvalues ← load_list load_string
  pure (record f { lineinfo = lineinfo; locvars = locvars; upvalues = upvalues })

abbrev pub protos : List Proto → Protos
protos [] = no_protos
protos (f ∷ fs) = add_proto f (protos fs)

-- What a check of the code comes to.
pub data Verdict : Type 0 where
  accepted refused out_of_bounds : Verdict

abbrev pub after_check : Verdict → Proto → Loader Proto
after_check accepted f = pure f
after_check refused f = fail bad_code
after_check out_of_bounds f = fail stray_read

-- `luaG_checkcode` of open-ldb/ldebug.c is a parameter.
module _ (check_code : Proto → Verdict) where
  abbrev pub checked : Proto → Loader Proto
  checked f = after_check (check_code f) f

  unfoldable pub load_function : ℕ → Option Bytes → Loader Proto
  load_function zero p = fail unfinished
  load_function (suc fuel) p = do
    f ← load_fields p
    fs ← load_list (load_function fuel f.source)
    g ← load_debug f
    checked (proto g (protos fs))

  abbrev pub check_header : Bytes → Loader (Unit {0})
  check_header h = if eq_bytes header h then pure tt else fail bad_header

  -- A function takes bytes before it loads another, so the length of the chunk is enough fuel.
  unfoldable pub undump : Bytes → Loaded Proto
  undump s =
      (do
        h ← load_block 12
        ok ← check_header h
        load_function (suc (length s)) (some (codes "=?")))
        s
