-- ===== src/Lua/Checker/Targets.antt =====
-- The positions that each kind of instruction leads to are looked at by the code checker
-- (open-ldb/ldebug.c, open-ldb/lvm.c).
use lua_eclipse_ide.Base.{
  ℕ, zero, suc, ◌+◌, ◌<◌, true, false, not, ◌||◌, Option, some, pos, get_elem?, get_elem?_below,
  length, ltb, ltb→lt, ◌==◌, Bool-cases, some_injective, inl, inr, ◌⊎◌, ◌≡◌, refl, sym, ap, ◌∙◌,
  arith,
}
use lua_eclipse_ide.Lua.Instructions.{
  OpCode, op_jmp, op_loadbool, op_getupval, op_move, op_setlist, op_closure, opmodes, getarg_c,
  getarg_bx, getarg_sbx, get_opcode,
}
use lua_eclipse_ide.Lua.Chunk.{ProtoFields, Protos}
use lua_eclipse_ide.Lua.Chunk.Dump.{count_protos}
use lua_eclipse_ide.Lua.Checker.{
  pass, check, unless, read_from, Operands, one_if, is_jmp, is_setlist, counts_next, moves_upvalue,
  nth_proto, read_code, check_arg_mode, check_mode, check_skip, check_pseudo, check_op, dest_of,
}
use lua_eclipse_ide.Lua.Checker.Passed.{
  then-pass, bind-pass, check-pass, read_from-pass, pass_injective, Checked,
}
use lua_eclipse_ide.Lua.Checker.Scan.{Seen, after}
use lua_eclipse_ide.Lua.Checker.Accept.{
  Accepted, On, On-Checked, On-suc, On-jump, goes_on, jump-pass, test-pass, plain_op,
  no_holes-count, no_holes-skip,
}
use lua_eclipse_ide.Lua.Checker.Flow.{
  straight, skips, tests, jumps, loops, returns, sets_list, makes_closure, flow_of, Fetched,
  no_holes,
}

not_list : (op : OpCode) → (flow_of op ≡ sets_list → ⊥) → is_setlist (some op) ≡ false
not_list op_setlist h = absurd (h refl)
not_list _ h = refl

jmp_op : (o : Option OpCode) → is_jmp o ≡ true → o ≡ some op_jmp
jmp_op (some op_jmp) h = refl
jmp_op _ h = cc

moving_op :
    (o : Option OpCode)
    → moves_upvalue o ≡ true
    → (op : OpCode) × (o ≡ some op) × (flow_of op ≡ straight)
moving_op (some op_getupval) h = (op_getupval, refl, refl)
moving_op (some op_move) h = (op_move, refl, refl)
moving_op _ h = cc

pub skips_op : (op : OpCode) → flow_of op ≡ skips → op ≡ op_loadbool
skips_op op_loadbool h = refl
skips_op _ h = cc

pub list_op : (op : OpCode) → flow_of op ≡ sets_list → op ≡ op_setlist
list_op op_setlist h = refl
list_op _ h = cc

pub closure_op : (op : OpCode) → flow_of op ≡ makes_closure → op ≡ op_closure
closure_op op_closure h = refl
closure_op _ h = cc

pub pos_injective : {a b : ℕ} → pos a ≡ pos b → a ≡ b
pos_injective h = cc

pub zero_right : (q : ℕ) → q + 0 ≡ q
zero_right q = omega arith

suc_right : (q n : ℕ) → q + suc n ≡ suc q + n
suc_right q n = omega arith

one_right : (q : ℕ) → q + 1 ≡ suc q
one_right q = omega arith

module _ (f : ProtoFields) (fs : Protos) (ok : Accepted f fs) where
  counts_eq : (i : ℕ) {q : ℕ} → Fetched f q i op_setlist → counts_next i ≡ (getarg_c i == 0)
  unfolding counts_next
  counts_eq i at = rw at.is_op refl

  record Passes (q i : ℕ) (op : OpCode) : Type 0 where
    args : Operands
    mode : check_mode f fs q i (opmodes op) (opmodes op).mode ≡ pass args
    test : unless (not (opmodes op).is_test) (check_skip f fs q) ≡ pass tt
    checks : check_op f fs op q args ≡ pass tt

  pass_at : (q i : ℕ) (op : OpCode) → On f fs q → Fetched f q i op → Passes q i op
  pass_at q i op on at =
      let c = On-Checked f fs ok q on in
      let w = some_injective (sym c.found ∙ at.at) in
      let e = some_injective (sym c.opcode ∙ ap get_opcode w ∙ at.is_op) in
      record {
        args = c.args;
        mode = rw (w, e) at c.mode;
        test = rw e at c.test;
        checks = rw e at c.checks;
      }

  pub falls :
      (q i : ℕ) (op : OpCode)
      → On f fs q
      → Fetched f q i op
      → (flow_of op ≡ returns → ⊥)
      → (flow_of op ≡ sets_list → ⊥)
      → On f fs (suc q)
  falls q i op on at h k =
      On-suc f fs ok q i at.at (plain_op i op at.is_op (not_list op k))
        (goes_on f fs ok q i op at h)

  pseudo-On : (n q : ℕ) → On f fs (suc q) → check_pseudo f fs q n ≡ pass tt → On f fs (suc (q + n))
  pseudo-On zero q on h = rw (zero_right q) on
  pseudo-On (suc n) q on h =
      let (i, e, h1) = bind-pass (read_code f fs (suc q)) _ h in
      let (m, h2) =
        then-pass (check (moves_upvalue (get_opcode i))) (check_pseudo f fs (suc q) n) h1 in
      let (op, is_op, flow) =
        moving_op (get_opcode i) (check-pass (moves_upvalue (get_opcode i)) m) in
      let at : Fetched f (suc q) i op = record {
        at = read_from-pass (get_elem? f.code (suc q)) e;
        is_op = is_op;
      } in
      rw (suc_right q n) (pseudo-On n (suc q) (falls (suc q) i op on at (λ r. cc) (λ l. cc)) h2)

  -- The jump that follows a test.
  record Skip (q : ℕ) : Type 0 where
    word : ℕ
    fetched : Fetched f (suc q) word op_jmp

  test-Skip : (q i : ℕ) (op : OpCode) → On f fs q → Fetched f q i op → flow_of op ≡ tests → Skip q
  test-Skip q i op on at h =
      let t = rw (test-pass f fs op h) at (pass_at q i op on at).test in
      let (_, h1) = then-pass (check (ltb (q + 2) (length f.code))) _ t in
      let (j, e, h2) = bind-pass (read_code f fs (suc q)) (λ j. check (is_jmp (get_opcode j))) h1 in
      record {
        word = j;
        fetched = record {
          at = read_from-pass (get_elem? f.code (suc q)) e;
          is_op = jmp_op (get_opcode j) (check-pass (is_jmp (get_opcode j)) h2);
        };
      }

  pub jump-On :
      (q i : ℕ) (op : OpCode)
      → On f fs q
      → Fetched f q i op
      → (flow_of op ≡ jumps) ⊎ (flow_of op ≡ loops)
      → (p : ℕ) × (dest_of q (getarg_sbx i) ≡ pos p) × On f fs p
  jump-On q i op on at h =
      On-jump f fs ok (dest_of q (getarg_sbx i))
        (jump-pass f fs op q i h (pass_at q i op on at).mode)

  module _ (safe : no_holes f.code ≡ true) where
    -- An `OP_LOADBOOL` that skips an instruction.
    pub skip-On :
        (q i : ℕ)
        → On f fs q
        → Fetched f q i op_loadbool
        → (getarg_c i == 0) ≡ false
        → On f fs (suc (q + 1))
    unfolding check_op check_arg_mode
    skip-On q i on at h =
        let p = pass_at q i op_loadbool on at in
        let c_eq = ap Operands.c (pass_injective _ _ p.mode) in
        let t = check-pass (p.args.c == 0 || ltb (q + 2) (length f.code)) p.checks in
        let inside = rw (sym c_eq, h) at t in
        let on1 = falls q i op_loadbool on at (λ r. cc) (λ l. cc) in
        let (j, e) = get_elem?_below (suc q) f.code on1.1 in
        let plain = no_holes-skip f.code q i j safe at.at (rw (at.is_op, h) refl) e in
        rw (one_right q)
          (On-suc f fs ok (suc q) j e plain (omega (arith, ltb→lt (q + 2) (length f.code) inside)))

    pub list-On :
        (q i : ℕ)
        → On f fs q
        → Fetched f q i op_setlist
        → On f fs (suc (q + one_if (getarg_c i == 0)))
    list-On q i on at = (rw (w, counts_eq i at) at s, below (Bool-cases (getarg_c i == 0)))
      where
        c : Checked f fs q
        c = On-Checked f fs ok q on

        w : c.word ≡ i
        w = some_injective (sym c.found ∙ at.at)

        s : Seen f fs (suc (q + one_if (counts_next c.word)))
        s = after q on.0 c

        below :
            ((getarg_c i == 0) ≡ true) ⊎ ((getarg_c i == 0) ≡ false)
            → suc (q + one_if (getarg_c i == 0)) < length f.code
        below (inl e) =
            rw (e, one_right q) (no_holes-count f.code q i safe at.at (counts_eq i at ∙ e))
        below (inr e) = rw (e, zero_right q) (goes_on f fs ok q i op_setlist at (λ r. cc))

  pub closure-On :
      (q i : ℕ) {p : ProtoFields}
      → On f fs q
      → Fetched f q i op_closure
      → nth_proto fs (getarg_bx i) ≡ some p
      → On f fs (suc (q + p.nups))
  unfolding check_op check_arg_mode
  closure-On q i {p} on at h =
      let a = pass_at q i op_closure on at in
      let b_eq = ap Operands.b (pass_injective _ _ a.mode) in
      let t = rw (sym b_eq) at a.checks in
      let (_, h1) = then-pass (check (ltb (getarg_bx i) (count_protos fs))) _ t in
      let (p1, e, h2) = bind-pass (read_from (nth_proto fs (getarg_bx i))) _ h1 in
      let same = some_injective (sym (read_from-pass _ e) ∙ h) in
      let (_, h3) = then-pass (check (ltb (q + p1.nups) (length f.code))) _ h2 in
      let on1 = falls q i op_closure on at (λ r. cc) (λ l. cc) in
      rw same at (pseudo-On p1.nups q on1 h3)

  pub test-On :
      (q i : ℕ) (op : OpCode)
      → On f fs q
      → Fetched f q i op
      → flow_of op ≡ tests
      → On f fs (suc (suc q))
  test-On q i op on got h =
      let t = test-Skip q i op on got h in
      let on1 = falls q i op on got (λ r. cc) (λ l. cc) in
      falls (suc q) t.word op_jmp on1 t.fetched (λ r. cc) (λ l. cc)

  pub test_jump-On :
      (q i j : ℕ) (op : OpCode)
      → On f fs q
      → Fetched f q i op
      → flow_of op ≡ tests
      → get_elem? f.code (suc q) ≡ some j
      → (p : ℕ) × (dest_of (suc q) (getarg_sbx j) ≡ pos p) × On f fs p
  test_jump-On q i j op on got h e =
      let t = test-Skip q i op on got h in
      let on1 = falls q i op on got (λ r. cc) (λ l. cc) in
      let same = some_injective (sym t.fetched.at ∙ e) in
      rw same at (jump-On (suc q) t.word op_jmp on1 t.fetched (inl refl))
