-- ===== src/Lua/Instructions.antt =====
-- Instructions (open-ldb/lopcodes.h, open-ldb/lopcodes.c): a word of 32 bits with an opcode of 6, an
-- argument A of 8, and C and B of 9 bits each, or Bx of 18 in place of both.
use lua_eclipse_ide.Base.{
  ℕ, ◌/◌, ◌%◌, Bool, true, false, List, [], ◌∷◌, Option, ℤ, sub_ℕ, get_elem?, leb,
}

pub data OpCode : Type 0 where
  op_move op_loadk op_loadbool op_loadnil op_getupval op_getglobal op_gettable : OpCode
  op_setglobal op_setupval op_settable op_newtable op_self op_add op_sub op_mul op_div : OpCode
  op_mod op_pow op_unm op_not op_len op_concat op_jmp op_eq op_lt op_le op_test : OpCode
  op_testset op_call op_tailcall op_return op_forloop op_forprep op_tforloop op_setlist : OpCode
  op_close op_closure op_vararg : OpCode

abbrev pub opcodes : List OpCode
opcodes =
    op_move ∷ op_loadk ∷ op_loadbool ∷ op_loadnil ∷ op_getupval ∷ op_getglobal ∷ op_gettable
    ∷ op_setglobal ∷ op_setupval ∷ op_settable ∷ op_newtable ∷ op_self ∷ op_add ∷ op_sub ∷ op_mul
    ∷ op_div ∷ op_mod ∷ op_pow ∷ op_unm ∷ op_not ∷ op_len ∷ op_concat ∷ op_jmp ∷ op_eq ∷ op_lt
    ∷ op_le ∷ op_test ∷ op_testset ∷ op_call ∷ op_tailcall ∷ op_return ∷ op_forloop ∷ op_forprep
    ∷ op_tforloop ∷ op_setlist ∷ op_close ∷ op_closure ∷ op_vararg ∷ []

pub data OpMode : Type 0 where
  i_abc i_abx i_asbx : OpMode

-- An argument that is not used, used as a number, a register, or a register or constant.
pub data OpArgMask : Type 0 where
  op_arg_n op_arg_u op_arg_r op_arg_k : OpArgMask

-- `opmode(t, a, b, c, m)`
pub record OpModes : Type 0 where
  pub is_test : Bool
  pub sets_a : Bool
  pub b_mode : OpArgMask
  pub c_mode : OpArgMask
  pub mode : OpMode

abbrev opmode : Bool → Bool → OpArgMask → OpArgMask → OpMode → OpModes
opmode t a b c m = record { is_test = t; sets_a = a; b_mode = b; c_mode = c; mode = m }

abbrev pub opmodes : OpCode → OpModes
opmodes op_move = opmode false true op_arg_r op_arg_n i_abc
opmodes op_loadk = opmode false true op_arg_k op_arg_n i_abx
opmodes op_loadbool = opmode false true op_arg_u op_arg_u i_abc
opmodes op_loadnil = opmode false true op_arg_r op_arg_n i_abc
opmodes op_getupval = opmode false true op_arg_u op_arg_n i_abc
opmodes op_getglobal = opmode false true op_arg_k op_arg_n i_abx
opmodes op_gettable = opmode false true op_arg_r op_arg_k i_abc
opmodes op_setglobal = opmode false false op_arg_k op_arg_n i_abx
opmodes op_setupval = opmode false false op_arg_u op_arg_n i_abc
opmodes op_settable = opmode false false op_arg_k op_arg_k i_abc
opmodes op_newtable = opmode false true op_arg_u op_arg_u i_abc
opmodes op_self = opmode false true op_arg_r op_arg_k i_abc
opmodes op_add = opmode false true op_arg_k op_arg_k i_abc
opmodes op_sub = opmode false true op_arg_k op_arg_k i_abc
opmodes op_mul = opmode false true op_arg_k op_arg_k i_abc
opmodes op_div = opmode false true op_arg_k op_arg_k i_abc
opmodes op_mod = opmode false true op_arg_k op_arg_k i_abc
opmodes op_pow = opmode false true op_arg_k op_arg_k i_abc
opmodes op_unm = opmode false true op_arg_r op_arg_n i_abc
opmodes op_not = opmode false true op_arg_r op_arg_n i_abc
opmodes op_len = opmode false true op_arg_r op_arg_n i_abc
opmodes op_concat = opmode false true op_arg_r op_arg_r i_abc
opmodes op_jmp = opmode false false op_arg_r op_arg_n i_asbx
opmodes op_eq = opmode true false op_arg_k op_arg_k i_abc
opmodes op_lt = opmode true false op_arg_k op_arg_k i_abc
opmodes op_le = opmode true false op_arg_k op_arg_k i_abc
opmodes op_test = opmode true true op_arg_r op_arg_u i_abc
opmodes op_testset = opmode true true op_arg_r op_arg_u i_abc
opmodes op_call = opmode false true op_arg_u op_arg_u i_abc
opmodes op_tailcall = opmode false true op_arg_u op_arg_u i_abc
opmodes op_return = opmode false false op_arg_u op_arg_n i_abc
opmodes op_forloop = opmode false true op_arg_r op_arg_n i_asbx
opmodes op_forprep = opmode false true op_arg_r op_arg_n i_asbx
opmodes op_tforloop = opmode true false op_arg_n op_arg_u i_abc
opmodes op_setlist = opmode false false op_arg_u op_arg_u i_abc
opmodes op_close = opmode false false op_arg_n op_arg_n i_abc
opmodes op_closure = opmode false true op_arg_u op_arg_n i_abx
opmodes op_vararg = opmode false true op_arg_u op_arg_n i_abc

unfoldable pub getarg_a : ℕ → ℕ
getarg_a i = i / 64 % 256

unfoldable pub getarg_c : ℕ → ℕ
getarg_c i = i / 16384 % 512

unfoldable pub getarg_b : ℕ → ℕ
getarg_b i = i / 8388608 % 512

unfoldable pub getarg_bx : ℕ → ℕ
getarg_bx i = i / 16384 % 262144

-- A signed argument is stored with 131071 added to it.
unfoldable pub getarg_sbx : ℕ → ℤ
getarg_sbx i = sub_ℕ (getarg_bx i) 131071

-- `none`: the number is not below `NUM_OPCODES`.
unfoldable pub get_opcode : ℕ → Option OpCode
get_opcode i = get_elem? opcodes (i % 64)

-- `ISK` and `INDEXK`: the highest of the 9 bits marks a constant.
abbrev pub is_k : ℕ → Bool
is_k r = leb 256 (r % 512)

abbrev pub index_k : ℕ → ℕ
index_k r = r % 256

abbrev pub no_reg : ℕ
no_reg = 255
