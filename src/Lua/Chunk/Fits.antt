-- ===== src/Lua/Chunk/Fits.antt =====
-- Which prototypes a chunk can hold: every number fits the bytes that open-ldb/ldump.c gives it,
-- and every function has a source. Also what is left of one that is saved without debug data.
use lua_eclipse_ide.Base.{
  ℕ, suc, ◌<◌, Bool, List, [], ◌∷◌, ◌≡◌, Bytes, Option, none, some, length, if◌then◌else◌,
}
use lua_eclipse_ide.Lua.Words.{capacity, IsInt, IsCount, IsChar}
use lua_eclipse_ide.Lua.Chunk.{
  LocVar, Constant, nil_constant, boolean_constant, number_constant, string_constant, ProtoFields,
  Proto, Protos, proto, no_protos, add_proto,
}
use lua_eclipse_ide.Lua.Chunk.Load.{Verdict, accepted}
use lua_eclipse_ide.Lua.Chunk.Dump.{count_protos, unless_stripped}

abbrev pub max_count : ℕ
max_count = 2147483648

abbrev pub All {ℓ} : {A : Type ℓ} → (A → Type 0) → List A → Type 0
All P [] = Unit {0}
All P (x ∷ xs) = P x × All P xs

abbrev pub ListFits {ℓ} : {A : Type ℓ} → (A → Type 0) → List A → Type 0
ListFits P xs = (length xs < max_count) × All P xs

abbrev pub StringFits : Option Bytes → Type 0
StringFits none = Unit {0}
StringFits (some s) = suc (length s) < capacity 8

abbrev pub HasSource : Option Bytes → Type 0
HasSource none = 1 < 0
HasSource (some s) = suc (length s) < capacity 8

abbrev pub ConstantFits : Constant → Type 0
ConstantFits nil_constant = Unit {0}
ConstantFits (boolean_constant b) = IsChar b
ConstantFits (number_constant n) = length n ≡ 8
ConstantFits (string_constant s) = StringFits s

pub record LocVarFits (v : LocVar) : Type 0 where
  pub varname : StringFits v.varname
  pub startpc : IsCount v.startpc
  pub endpc : IsCount v.endpc

pub record FieldsFit (f : ProtoFields) : Type 0 where
  pub source : HasSource f.source
  pub linedefined : IsCount f.linedefined
  pub lastlinedefined : IsCount f.lastlinedefined
  pub nups : f.nups < 256
  pub numparams : f.numparams < 256
  pub is_vararg : f.is_vararg < 256
  pub maxstacksize : f.maxstacksize < 256
  pub code : ListFits (λ c. c < capacity 4) f.code
  pub k : ListFits ConstantFits f.k
  pub lineinfo : ListFits IsInt f.lineinfo
  pub locvars : ListFits LocVarFits f.locvars
  pub upvalues : ListFits StringFits f.upvalues

unfoldable mutual
  pub ProtoFits : Proto → Type 0
  ProtoFits (proto f fs) = FieldsFit f × (count_protos fs < max_count) × ProtosFit fs

  pub ProtosFit : Protos → Type 0
  ProtosFit no_protos = Unit {0}
  ProtosFit (add_proto f fs) = ProtoFits f × ProtosFit fs

-- `check_code` accepts a function and all that it defines.
module _ (check_code : Proto → Verdict) where
  unfoldable mutual
    pub Passes : Proto → Type 0
    Passes (proto f fs) = (check_code (proto f fs) ≡ accepted) × AllPass fs

    pub AllPass : Protos → Type 0
    AllPass no_protos = Unit {0}
    AllPass (add_proto f fs) = Passes f × AllPass fs

abbrev pub kept_source : Bool → Option Bytes → Option Bytes → Option Bytes
kept_source strip p source = if strip then p else source

abbrev pub stripped_fields : Bool → Option Bytes → ProtoFields → ProtoFields
stripped_fields strip p f = record f {
  source = kept_source strip p f.source;
  lineinfo = unless_stripped strip f.lineinfo;
  locvars = unless_stripped strip f.locvars;
  upvalues = unless_stripped strip f.upvalues;
}

-- What a loaded function is like: without its debug data, and with the source `p` of the
-- function around it, if it was saved stripped; as it was otherwise.
unfoldable mutual
  pub stripped : Bool → Option Bytes → Proto → Proto
  stripped strip p (proto f fs) =
      proto (stripped_fields strip p f) (all_stripped strip (kept_source strip p f.source) fs)

  pub all_stripped : Bool → Option Bytes → Protos → Protos
  all_stripped strip p no_protos = no_protos
  all_stripped strip p (add_proto f fs) = add_proto (stripped strip p f) (all_stripped strip p fs)
