-- ===== src/Lua/Checker.antt =====
-- The code checker (`symbexec` and `luaG_checkcode` of open-ldb/ldebug.c), which looks at each
-- instruction once. `stray` is a read outside an array.
pub mod Symbexec
pub mod Passed
pub mod Inside
pub mod Reads
pub mod Rounds
pub mod Flow
pub mod Scan
pub mod Accept
pub mod Targets
pub mod Sound
pub mod Loaded
use lua_eclipse_ide.Base.{
  ℕ, zero, suc, ◌+◌, ◌-◌, ◌*◌, ◌/◌, ◌%◌, Bool, true, false, not, ◌&&◌, ◌||◌, List, [], ◌∷◌, Option,
  none, some, ℤ, pos, negsuc, ◌+ℤ◌, length, get_elem?, ltb, leb, ltb_int, ◌==◌, if◌then◌else◌,
}
use lua_eclipse_ide.Lua.Instructions.{
  OpCode, op_move, op_loadbool, op_loadnil, op_getupval, op_getglobal, op_setglobal, op_setupval,
  op_self, op_concat, op_jmp, op_call, op_tailcall, op_return, op_forloop, op_forprep, op_tforloop,
  op_setlist, op_closure, op_vararg, OpMode, i_abc, i_abx, i_asbx, OpArgMask, op_arg_n, op_arg_u,
  op_arg_r, op_arg_k, OpModes, opmodes, getarg_a, getarg_b, getarg_c, getarg_bx, getarg_sbx,
  get_opcode, is_k, index_k, no_reg,
}
use lua_eclipse_ide.Lua.Chunk.{
  Constant, string_constant, ProtoFields, Proto, Protos, proto, no_protos, add_proto,
}
use lua_eclipse_ide.Lua.Chunk.Dump.{count_protos}

pub data Check {ℓ} (A : Type ℓ) : Type ℓ where
  pass : A → Check A
  reject stray : Check A

infixl 5 ◌>>=◌ ◌>>◌
abbrev pub ◌>>=◌ {ℓ κ} : {A : Type ℓ} {B : Type κ} → Check A → (A → Check B) → Check B
pass a >>= k = k a
reject >>= k = reject
stray >>= k = stray

abbrev pub ◌>>◌ {ℓ} : {B : Type ℓ} → Check (Unit {0}) → Check B → Check B
m >> k = m >>= λ _. k

abbrev pub check : Bool → Check (Unit {0})
check true = pass tt
check false = reject

abbrev pub read_from {ℓ} : {A : Type ℓ} → Option A → Check A
read_from none = stray
read_from (some a) = pass a

abbrev pub unless : Bool → Check (Unit {0}) → Check (Unit {0})
unless true m = pass tt
unless false m = m

abbrev pub one_if : Bool → ℕ
one_if b = if b then 1 else 0

abbrev pub is_string : Constant → Bool
is_string (string_constant s) = true
is_string _ = false

abbrev pub nth_proto : Protos → ℕ → Option ProtoFields
nth_proto no_protos i = none
nth_proto (add_proto (proto f fs) rest) zero = some f
nth_proto (add_proto f rest) (suc i) = nth_proto rest i

abbrev pub is_return : Option OpCode → Bool
is_return (some op_return) = true
is_return _ = false

abbrev pub is_jmp : Option OpCode → Bool
is_jmp (some op_jmp) = true
is_jmp _ = false

abbrev pub is_setlist : Option OpCode → Bool
is_setlist (some op_setlist) = true
is_setlist _ = false

-- `GET_OPCODE(d) == OP_SETLIST && GETARG_C(d) == 0`: the next word is a count.
unfoldable pub counts_next : ℕ → Bool
counts_next d = is_setlist (get_opcode d) && getarg_c d == 0

abbrev takes_open : Option OpCode → Bool
takes_open (some op_call) = true
takes_open (some op_tailcall) = true
takes_open (some op_return) = true
takes_open (some op_setlist) = true
takes_open _ = false

-- `luaG_checkopenop`
unfoldable pub check_open_op : ℕ → Bool
check_open_op i = takes_open (get_opcode i) && getarg_b i == 0

abbrev moves_upvalue : Option OpCode → Bool
moves_upvalue (some op_getupval) = true
moves_upvalue (some op_move) = true
moves_upvalue _ = false

-- `pc + 1 + b`
abbrev pub dest_of : ℕ → ℤ → ℤ
dest_of pc jump = pos (pc + 1) +ℤ jump

-- The arguments of an instruction; `jump` is `b` where it is signed.
pub record Operands : Type 0 where
  pub a : ℕ
  pub b : ℕ
  pub c : ℕ
  pub jump : ℤ

module _ (f : ProtoFields) (fs : Protos) where
  abbrev pub size_code : ℕ
  size_code = length f.code

  abbrev pub read_code : ℕ → Check ℕ
  read_code pc = read_from (get_elem? f.code pc)

  abbrev pub check_reg : ℕ → Check (Unit {0})
  check_reg reg = check (ltb reg f.maxstacksize)

  -- The last instruction of an empty function is read outside the array.
  abbrev pub last_code : ℕ → Check ℕ
  last_code zero = stray
  last_code (suc n) = read_code n

  unfoldable pub precheck : Check (Unit {0})
  precheck = do
    check (leb f.maxstacksize 250)
    check (leb (length f.upvalues) f.nups)
    check (length f.lineinfo == length f.code || length f.lineinfo == 0)
    i ← last_code (length f.code)
    check (is_return (get_opcode i))

  unfoldable pub check_arg_mode : ℕ → OpArgMask → Check (Unit {0})
  check_arg_mode r op_arg_n = check (r == 0)
  check_arg_mode r op_arg_u = pass tt
  check_arg_mode r op_arg_r = check_reg r
  check_arg_mode r op_arg_k = if is_k r then check (ltb (index_k r) (length f.k)) else check_reg r

  -- A jump stays inside the code, and does not lead to the count of an `OP_SETLIST`.
  unfoldable pub check_jump : ℤ → Check (Unit {0})
  check_jump (negsuc n) = reject
  check_jump (pos zero) = check (ltb 0 size_code)
  check_jump (pos (suc d)) = do
    check (ltb (suc d) size_code)
    i ← read_code d
    check (not (counts_next i))

  abbrev pub check_bx : OpArgMask → ℕ → Check (Unit {0})
  check_bx op_arg_k b = check (ltb b (length f.k))
  check_bx _ b = pass tt

  abbrev pub check_sbx : OpArgMask → ℤ → Check (Unit {0})
  check_sbx op_arg_r dest = check_jump dest
  check_sbx _ dest = pass tt

  -- The switch on the mode of the instruction.
  abbrev pub check_mode : ℕ → ℕ → OpModes → OpMode → Check Operands
  check_mode pc i m i_abc = do
    check_arg_mode (getarg_b i) m.b_mode
    check_arg_mode (getarg_c i) m.c_mode
    pass (record { a = getarg_a i; b = getarg_b i; c = getarg_c i; jump = pos 0 })
  check_mode pc i m i_abx = do
    check_bx m.b_mode (getarg_bx i)
    pass (record { a = getarg_a i; b = getarg_bx i; c = 0; jump = pos 0 })
  check_mode pc i m i_asbx = do
    check_sbx m.b_mode (dest_of pc (getarg_sbx i))
    pass (record { a = getarg_a i; b = 0; c = 0; jump = getarg_sbx i })

  abbrev pub check_skip : ℕ → Check (Unit {0})
  check_skip pc = do
    check (ltb (pc + 2) size_code)
    i ← read_code (suc pc)
    check (is_jmp (get_opcode i))

  abbrev pub check_next_open : ℕ → Check (Unit {0})
  check_next_open pc = do i ← read_code (suc pc); check (check_open_op i)

  -- The arguments of a call, and its results: `c` is one more than their number, or 0.
  abbrev pub check_results : ℕ → ℕ → ℕ → Check (Unit {0})
  check_results pc a zero = check_next_open pc
  check_results pc a (suc zero) = pass tt
  check_results pc a (suc (suc n)) = check_reg (a + n)

  abbrev pub check_call : ℕ → Operands → Check (Unit {0})
  check_call pc o = do unless (o.b == 0) (check_reg (o.a + o.b - 1)); check_results pc o.a o.c

  abbrev pub check_pseudo : ℕ → ℕ → Check (Unit {0})
  check_pseudo pc zero = pass tt
  check_pseudo pc (suc n) = do
    i ← read_code (suc pc)
    check (moves_upvalue (get_opcode i))
    check_pseudo (suc pc) n

  abbrev pub check_closure : ℕ → ℕ → Check (Unit {0})
  check_closure pc b = do
    check (ltb b (count_protos fs))
    p ← read_from (nth_proto fs b)
    check (ltb (pc + p.nups) size_code)
    check_pseudo pc p.nups

  -- The checks of the switch on the opcode.
  unfoldable pub check_op : OpCode → ℕ → Operands → Check (Unit {0})
  check_op op_loadbool pc o = check (o.c == 0 || ltb (pc + 2) size_code)
  check_op op_getupval pc o = check (ltb o.b f.nups)
  check_op op_setupval pc o = check (ltb o.b f.nups)
  check_op op_getglobal pc o = do k ← read_from (get_elem? f.k o.b); check (is_string k)
  check_op op_setglobal pc o = do k ← read_from (get_elem? f.k o.b); check (is_string k)
  check_op op_self pc o = check_reg (o.a + 1)
  check_op op_concat pc o = check (ltb o.b o.c)
  check_op op_tforloop pc o = do check (leb 1 o.c); check_reg (o.a + 2 + o.c)
  check_op op_forloop pc o = check_reg (o.a + 3)
  check_op op_forprep pc o = check_reg (o.a + 3)
  check_op op_call pc o = check_call pc o
  check_op op_tailcall pc o = check_call pc o
  check_op op_return pc o = unless (leb o.b 1) (check_reg (o.a + o.b - 2))
  check_op op_setlist pc o = unless (o.b == 0) (check_reg (o.a + o.b))
  check_op op_closure pc o = check_closure pc o.b
  check_op op_vararg pc o = do
    check (f.is_vararg / 2 % 2 == 1 && f.is_vararg / 4 % 2 == 0)
    unless (not (o.b == 0)) (check_next_open pc)
    check (ltb (o.a + o.b) (f.maxstacksize + 2))
  check_op _ pc o = pass tt
