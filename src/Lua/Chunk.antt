-- ===== src/Lua/Chunk.antt =====
-- Precompiled chunks (open-ldb/ldump.c, open-ldb/lundump.c): the function prototypes that are
-- saved and loaded (`Proto` of open-ldb/lobject.h). A `TString*` is its bytes, `none` for a null
-- pointer: strings are interned, so the same bytes are the same pointer. A `lua_Number` is its
-- bytes in memory, which dump and load copy and never look at.
pub mod Dump
pub mod Load
pub mod Format
pub mod Saved
pub mod Fits
pub mod Parts
pub mod RoundTrip
pub mod Ends
pub mod Refused
pub mod Watched
use lua_eclipse_ide.Base.{
  ℕ, Bool, true, false, List, Bytes, codes, ◌++◌, [], ◌∷◌, ℤ, Option, none, some,
}

pub record LocVar : Type 0 where
  pub varname : Option Bytes
  pub startpc : ℤ
  pub endpc : ℤ

pub data Constant : Type 0 where
  nil_constant : Constant
  boolean_constant : ℤ → Constant
  number_constant : Bytes → Constant
  string_constant : Option Bytes → Constant

-- The fields of a `Proto`, all but the functions that it defines.
pub record ProtoFields : Type 0 where
  pub source : Option Bytes
  pub linedefined : ℤ
  pub lastlinedefined : ℤ
  pub nups : ℕ
  pub numparams : ℕ
  pub is_vararg : ℕ
  pub maxstacksize : ℕ
  pub code : List ℕ
  pub k : List Constant
  pub lineinfo : List ℤ
  pub locvars : List LocVar
  pub upvalues : List (Option Bytes)

mutual
  pub data Proto : Type 0 where
    proto : ProtoFields → Protos → Proto

  pub data Protos : Type 0 where
    no_protos : Protos
    add_proto : Proto → Protos → Protos

-- `luaU_header`, on a machine that stores the lowest byte first, with 4 bytes in an `int` and an
-- `Instruction`, 8 in a `size_t` and a `lua_Number`, and numbers that are not integral.
abbrev pub header : Bytes
header = 27 ∷ (codes "Lua" ++ 81 ∷ 0 ∷ 1 ∷ 4 ∷ 8 ∷ 4 ∷ 8 ∷ 0 ∷ [])
