-- ===== src/Lua/Checker/Symbexec.antt =====
-- The scan of the code checker (`symbexec`, `luaG_checkcode` of open-ldb/ldebug.c).
use lua_eclipse_ide.Base.{
  ℕ, zero, suc, ◌+◌, ◌-◌, Bool, true, false, not, ◌&&◌, ◌||◌, Option, none, some, ℤ, pos, negsuc,
  ltb, leb, ◌==◌, if◌then◌else◌,
}
use lua_eclipse_ide.Lua.Instructions.{
  OpCode, op_loadnil, op_self, op_jmp, op_call, op_tailcall, op_forloop, op_forprep, op_tforloop,
  op_setlist, op_closure, opmodes, getarg_a, get_opcode, no_reg,
}
use lua_eclipse_ide.Lua.Chunk.{ProtoFields, Protos}
use lua_eclipse_ide.Lua.Checker.{
  Check, one_if, pass, reject, ◌>>=◌, ◌>>◌, check, unless, Operands, nth_proto, read_code,
  size_code, check_reg, check_mode, check_skip, check_op, precheck,
}

-- Where the scan goes on, and the last instruction that changed the register.
pub record After : Type 0 where
  pub pc : ℕ
  pub last : ℕ

abbrev pub known : Option OpCode → Check OpCode
known none = reject
known (some op) = pass op

-- An instruction other than through `testAMode` changes the register.
abbrev changes_more : OpCode → ℕ → Operands → Bool
changes_more op_loadnil reg o = leb o.a reg && leb reg o.b
changes_more op_self reg o = reg == o.a + 1
changes_more op_tforloop reg o = leb (o.a + 2) reg
changes_more op_call reg o = leb o.a reg
changes_more op_tailcall reg o = leb o.a reg
changes_more _ reg o = false

-- The instruction sets `last`.
abbrev pub changes : OpCode → ℕ → Operands → Bool
changes op reg o = ((opmodes op).sets_a && o.a == reg) || changes_more op reg o

-- A forward jump is followed if not the whole function is checked.
abbrev pub skip_jump : ℕ → ℕ → ℕ → ℤ → ℕ
skip_jump lastpc reg pc (pos n) = if not (reg == no_reg) && leb (pc + 1 + n) lastpc then n else 0
skip_jump lastpc reg pc (negsuc n) = 0

abbrev nups_of : Option ProtoFields → ℕ
nups_of none = 0
nups_of (some p) = p.nups

module _ (f : ProtoFields) (fs : Protos) where
  -- What the instruction adds to `pc`.
  abbrev pub skip : OpCode → ℕ → ℕ → ℕ → Operands → ℕ
  skip op_jmp lastpc reg pc o = skip_jump lastpc reg pc o.jump
  skip op_forloop lastpc reg pc o = skip_jump lastpc reg pc o.jump
  skip op_forprep lastpc reg pc o = skip_jump lastpc reg pc o.jump
  skip op_setlist lastpc reg pc o = one_if (o.c == 0)
  skip op_closure lastpc reg pc o = if reg == no_reg then 0 else nups_of (nth_proto fs o.b)
  skip _ lastpc reg pc o = 0

  -- The body of the loop, and the `pc++` of its head.
  unfoldable pub step : ℕ → ℕ → ℕ → ℕ → Check After
  step lastpc reg pc last = do
    i ← read_code f fs pc
    op ← known (get_opcode i)
    check_reg f fs (getarg_a i)
    o ← check_mode f fs pc i (opmodes op) (opmodes op).mode
    unless (not (opmodes op).is_test) (check_skip f fs pc)
    check_op f fs op pc o
    pass (record {
      pc = suc (pc + skip op lastpc reg pc o);
      last = if changes op reg o then pc else last;
    })

  -- The loop; `pc` grows in each round, so the fuel `lastpc` is enough.
  unfoldable pub walk : ℕ → ℕ → ℕ → ℕ → ℕ → Check ℕ
  walk lastpc reg zero pc last = pass last
  walk lastpc reg (suc n) pc last = elim (ltb pc lastpc) [
    | true ↦ step lastpc reg pc last >>= λ s. walk lastpc reg n s.pc s.last
    | false ↦ pass last
  ]

  -- The instruction that changed `reg` last before `lastpc`.
  unfoldable pub symbexec : ℕ → ℕ → Check ℕ
  symbexec lastpc reg = do
    precheck f fs
    last ← walk lastpc reg lastpc 0 (size_code f fs - 1)
    read_code f fs last

  unfoldable pub check_code : Check (Unit {0})
  check_code = do i ← symbexec (size_code f fs) no_reg; check (not (i == 0))
