-- ===== src/Lua/Checker/Flow.antt =====
-- Where the interpreter goes on after an instruction (`luaV_execute` of open-ldb/lvm.c), and the
-- functions of which the code checker is not enough to keep it inside.
use lua_eclipse_ide.Base.{
  ℕ, suc, ◌+◌, Bool, true, false, not, ◌&&◌, List, [], ◌∷◌, Option, some, ℤ, pos, get_elem?, length,
  leb, ◌==◌, ◌≡◌,
}
use lua_eclipse_ide.Lua.Instructions.{
  OpCode, op_loadbool, op_jmp, op_eq, op_lt, op_le, op_test, op_testset, op_return, op_forloop,
  op_forprep, op_tforloop, op_setlist, op_closure, getarg_c, getarg_bx, getarg_sbx, get_opcode,
}
use lua_eclipse_ide.Lua.Chunk.{ProtoFields, Protos}
use lua_eclipse_ide.Lua.Checker.{one_if, counts_next, dest_of, nth_proto}

pub data Flow : Type 0 where
  straight skips tests jumps loops returns sets_list makes_closure : Flow

-- How the case of an opcode moves `pc`. A call goes on after the instruction when it is back.
abbrev pub flow_of : OpCode → Flow
flow_of op_loadbool = skips
flow_of op_jmp = jumps
flow_of op_eq = tests
flow_of op_lt = tests
flow_of op_le = tests
flow_of op_test = tests
flow_of op_testset = tests
flow_of op_return = returns
flow_of op_forloop = loops
flow_of op_forprep = jumps
flow_of op_tforloop = tests
flow_of op_setlist = sets_list
flow_of op_closure = makes_closure
flow_of _ = straight

-- The instruction at a position.
pub record Fetched (f : ProtoFields) (pc i : ℕ) (op : OpCode) : Type 0 where
  pub at : get_elem? f.code pc ≡ some i
  pub is_op : get_opcode i ≡ some op

module _ (f : ProtoFields) (fs : Protos) where
  -- A test takes the jump of the instruction after it, or goes past it.
  pub data Next (pc : ℕ) : ℤ → Type 0 where
    straight_on :
        {i : ℕ} {op : OpCode} → Fetched f pc i op → flow_of op ≡ straight → Next pc (pos (suc pc))
    bool_loaded :
        {i : ℕ} {op : OpCode}
        → Fetched f pc i op
        → flow_of op ≡ skips
        → Next pc (pos (suc (pc + one_if (not (getarg_c i == 0)))))
    test_passed :
        {i : ℕ} {op : OpCode}
        → Fetched f pc i op
        → flow_of op ≡ tests
        → Next pc (pos (suc (suc pc)))
    test_jumped :
        {i j : ℕ} {op : OpCode}
        → Fetched f pc i op
        → flow_of op ≡ tests
        → get_elem? f.code (suc pc) ≡ some j
        → Next pc (dest_of (suc pc) (getarg_sbx j))
    jumped :
        {i : ℕ} {op : OpCode}
        → Fetched f pc i op
        → flow_of op ≡ jumps
        → Next pc (dest_of pc (getarg_sbx i))
    loop_ended :
        {i : ℕ} {op : OpCode} → Fetched f pc i op → flow_of op ≡ loops → Next pc (pos (suc pc))
    loop_jumped :
        {i : ℕ} {op : OpCode}
        → Fetched f pc i op
        → flow_of op ≡ loops
        → Next pc (dest_of pc (getarg_sbx i))
    list_set :
        {i : ℕ} {op : OpCode}
        → Fetched f pc i op
        → flow_of op ≡ sets_list
        → Next pc (pos (suc (pc + one_if (getarg_c i == 0))))
    closure_made :
        {i : ℕ} {op : OpCode} {p : ProtoFields}
        → Fetched f pc i op
        → flow_of op ≡ makes_closure
        → nth_proto fs (getarg_bx i) ≡ some p
        → Next pc (pos (suc (pc + p.nups)))

  -- The values of `pc`, as an index of the code, that a call of the function can come to.
  pub data Reach : ℤ → Type 0 where
    entry : Reach (pos 0)
    onward : {pc : ℕ} {z : ℤ} → Reach (pos pc) → Next pc z → Reach z

abbrev is_loadbool : Option OpCode → Bool
is_loadbool (some op_loadbool) = true
is_loadbool _ = false

-- An `OP_LOADBOOL` that skips the next instruction.
abbrev pub bool_skips : ℕ → Bool
bool_skips i = is_loadbool (get_opcode i) && not (getarg_c i == 0)

abbrev pub counts_first : List ℕ → Bool
counts_first [] = false
counts_first (j ∷ rest) = counts_next j

-- No count is the last word, and no `OP_LOADBOOL` skips an instruction that has a count.
abbrev pub no_holes : List ℕ → Bool
no_holes [] = true
no_holes (i ∷ rest) =
    not (counts_next i && not (leb 2 (length rest)))
    && not (bool_skips i && counts_first rest)
    && no_holes rest
