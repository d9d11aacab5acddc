-- ===== src/Lua/Checker/Passed.antt =====
-- What the checks of one instruction have shown when they let it pass (`symbexec` of
-- open-ldb/ldebug.c).
use lua_eclipse_ide.Base.{
  ℕ, suc, ◌+◌, Bool, true, false, not, Option, none, some, get_elem?, ◌≡◌, refl, sym, ap,
  if◌then◌else◌,
}
use lua_eclipse_ide.Lua.Instructions.{OpCode, opmodes, getarg_a, get_opcode}
use lua_eclipse_ide.Lua.Chunk.{ProtoFields, Protos}
use lua_eclipse_ide.Lua.Checker.{
  Check, pass, reject, stray, ◌>>=◌, ◌>>◌, check, unless, read_from, Operands, check_mode,
  check_skip, check_op, read_code, check_reg,
}
use lua_eclipse_ide.Lua.Checker.Symbexec.{After, known, changes, skip, step}

pub then-pass {ℓ} :
    {A : Type ℓ} (m : Check (Unit {0})) (k : Check A) {x : A}
    → (m >> k) ≡ pass x
    → (m ≡ pass tt) × (k ≡ pass x)
then-pass (pass tt) k h = (refl, h)
then-pass reject k h = cc
then-pass stray k h = cc

pub bind-pass {ℓ κ} :
    {A : Type ℓ} {B : Type κ} (m : Check A) (k : A → Check B) {x : B}
    → (m >>= k) ≡ pass x
    → (a : A) × (m ≡ pass a) × (k a ≡ pass x)
bind-pass (pass a) k h = (a, refl, h)
bind-pass reject k h = cc
bind-pass stray k h = cc

pub check-pass : (b : Bool) → check b ≡ pass tt → b ≡ true
check-pass true h = refl
check-pass false h = cc

pub unless-pass : (b : Bool) (m : Check (Unit {0})) → unless b m ≡ pass tt → b ≡ false → m ≡ pass tt
unless-pass true m h e = cc
unless-pass false m h e = h

pub read_from-pass {ℓ} : {A : Type ℓ} (o : Option A) {a : A} → read_from o ≡ pass a → o ≡ some a
read_from-pass none h = cc
read_from-pass (some b) h = cc

pub known-pass : (o : Option OpCode) {op : OpCode} → known o ≡ pass op → o ≡ some op
known-pass none h = cc
known-pass (some b) h = cc

pub pass_injective {ℓ} : {A : Type ℓ} (a b : A) → pass a ≡ pass b → a ≡ b
pass_injective a b h = cc

-- An instruction that passes: its word, its opcode, its arguments, and the checks.
pub record Checked (f : ProtoFields) (fs : Protos) (pc : ℕ) : Type 0 where
  pub word : ℕ
  pub op : OpCode
  pub args : Operands
  pub found : get_elem? f.code pc ≡ some word
  pub opcode : get_opcode word ≡ some op
  pub register : check_reg f fs (getarg_a word) ≡ pass tt
  pub mode : check_mode f fs pc word (opmodes op) (opmodes op).mode ≡ pass args
  pub test : unless (not (opmodes op).is_test) (check_skip f fs pc) ≡ pass tt
  pub checks : check_op f fs op pc args ≡ pass tt

module _ (f : ProtoFields) (fs : Protos) (lastpc reg pc last : ℕ) where
  pub step-Checked :
      {s : After}
      → step f fs lastpc reg pc last ≡ pass s
      → (c : Checked f fs pc) × (s.pc ≡ suc (pc + skip f fs c.op lastpc reg pc c.args))
        × (s.last ≡ (if changes c.op reg c.args then pc else last))
  unfolding step
  step-Checked h =
      let (i, e1, h1) = bind-pass (read_code f fs pc) _ h in
      let (op, e2, h2) = bind-pass (known (get_opcode i)) _ h1 in
      let (e3, h3) = then-pass (check_reg f fs (getarg_a i)) _ h2 in
      let (o, e4, h4) = bind-pass (check_mode f fs pc i (opmodes op) (opmodes op).mode) _ h3 in
      let (e5, h5) = then-pass (unless (not (opmodes op).is_test) (check_skip f fs pc)) _ h4 in
      let (e6, h6) = then-pass (check_op f fs op pc o) _ h5 in
      (
        record {
          word = i;
          op = op;
          args = o;
          found = read_from-pass _ e1;
          opcode = known-pass _ e2;
          register = e3;
          mode = e4;
          test = e5;
          checks = e6;
        },
        ap After.pc (sym (pass_injective _ _ h6)),
        ap After.last (sym (pass_injective _ _ h6)),
      )
