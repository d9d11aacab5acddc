-- ===== src/Lua/Checker/Scan.antt =====
-- Which positions the scan of a whole function looks at (`luaG_checkcode` of open-ldb/ldebug.c).
use lua_eclipse_ide.Base.{
  ℕ, zero, suc, ◌+◌, ◌-◌, ◌<◌, ◌≤◌, Bool, true, false, ◌&&◌, some, length, ◌==◌, lt→ltb, Bool-cases,
  some_injective, get_elem?-some, inl, inr, ℤ, pos, negsuc, ◌≡◌, refl, sym, ap, ◌∙◌, arith,
}
use lua_eclipse_ide.Lua.Instructions.{
  OpCode, op_jmp, op_forloop, op_forprep, op_setlist, opmodes, getarg_c, no_reg,
}
use lua_eclipse_ide.Lua.Chunk.{ProtoFields, Protos}
use lua_eclipse_ide.Lua.Checker.{
  one_if, pass, ◌>>=◌, Operands, is_setlist, counts_next, check_arg_mode, check_mode,
}
use lua_eclipse_ide.Lua.Checker.Symbexec.{After, skip_jump, skip, step, walk}
use lua_eclipse_ide.Lua.Checker.Passed.{pass_injective, bind-pass, Checked, step-Checked}

skip_jump_full : (lastpc pc : ℕ) (j : ℤ) → skip_jump lastpc no_reg pc j ≡ 0
skip_jump_full lastpc pc (pos n) = refl
skip_jump_full lastpc pc (negsuc n) = refl

next_plain : (q : ℕ) {b : Bool} → b ≡ false → suc (q + one_if b) ≡ suc q
next_plain q h = rw h (omega arith)

next_counts : (q : ℕ) {b : Bool} → b ≡ true → suc (q + one_if b) ≡ suc (suc q)
next_counts q h = rw h (omega arith)

module _ (f : ProtoFields) (fs : Protos) where
  -- The whole function is scanned: only a count is stepped over.
  skip_full :
      (op : OpCode) (lastpc pc : ℕ) (o : Operands)
      → skip f fs op lastpc no_reg pc o ≡ one_if (is_setlist (some op) && o.c == 0)
  skip_full op_jmp lastpc pc o = skip_jump_full lastpc pc o.jump
  skip_full op_forloop lastpc pc o = skip_jump_full lastpc pc o.jump
  skip_full op_forprep lastpc pc o = skip_jump_full lastpc pc o.jump
  skip_full _ lastpc pc o = refl

  setlist_count :
      (op : OpCode) (pc i : ℕ) (o : Operands)
      → check_mode f fs pc i (opmodes op) (opmodes op).mode ≡ pass o
      → (is_setlist (some op) && o.c == 0) ≡ (is_setlist (some op) && getarg_c i == 0)
  unfolding check_arg_mode
  setlist_count op_setlist pc i o h = ap (λ x. x.c == 0) (sym (pass_injective _ _ h))
  setlist_count _ pc i o h = refl

  counts_Checked :
      {pc : ℕ} (c : Checked f fs pc)
      → (is_setlist (some c.op) && c.args.c == 0) ≡ counts_next c.word
  unfolding counts_next
  counts_Checked {pc} c = rw c.opcode (setlist_count c.op pc c.word c.args c.mode)

  step_full :
      (lastpc pc last : ℕ) {s : After}
      → step f fs lastpc no_reg pc last ≡ pass s
      → (c : Checked f fs pc) × (s.pc ≡ suc (pc + one_if (counts_next c.word)))
  step_full lastpc pc last h =
      let (c, e, _) = step-Checked f fs lastpc no_reg pc last h in
      (
        c,
        e ∙ ap (λ x. suc (pc + x)) (skip_full c.op lastpc pc c.args ∙ ap one_if (counts_Checked c)),
      )

  walk_round :
      (lastpc n pc last : ℕ) {l : ℕ}
      → walk f fs lastpc no_reg (suc n) pc last ≡ pass l
      → pc < lastpc
      → (step f fs lastpc no_reg pc last >>= λ s. walk f fs lastpc no_reg n s.pc s.last) ≡ pass l
  unfolding walk
  walk_round lastpc n pc last h below = rw (walk, lt→ltb pc lastpc below) at h

  -- The positions that the scan looks at.
  pub data Seen : ℕ → Type 0 where
    first : Seen 0
    after : (q : ℕ) → Seen q → (c : Checked f fs q) → Seen (suc (q + one_if (counts_next c.word)))

  to_next : {q : ℕ} → Seen q → (c : Checked f fs q) → Seen (suc (q + one_if (counts_next c.word)))
  to_next {q} s c = after q s c

  -- A position is looked at, or it is the count of the `OP_SETLIST` before it.
  pub data Visit (q : ℕ) : Type 0 where
    seen : Seen q → Visit q
    hidden :
        (p : ℕ) → q ≡ suc p → Seen p → (c : Checked f fs p) → counts_next c.word ≡ true → Visit q

  -- The rounds of the loop that are left at a position.
  record Rounds (lastpc q : ℕ) : Type 0 where
    fuel : ℕ
    last : ℕ
    result : ℕ
    left : walk f fs lastpc no_reg fuel q last ≡ pass result
    enough : lastpc ≤ fuel + q

  next_Rounds :
      (lastpc n q last l : ℕ)
      → walk f fs lastpc no_reg n q last ≡ pass l
      → lastpc ≤ n + q
      → q < lastpc
      → (c : Checked f fs q) × Rounds lastpc (suc (q + one_if (counts_next c.word)))
  next_Rounds lastpc zero q last l h enough below = absurd (omega arith)
  next_Rounds lastpc (suc n) q last l h enough below =
      let (s, e, h2) =
        bind-pass (step f fs lastpc no_reg q last) _ (walk_round lastpc n q last h below) in
      let (c, next) = step_full lastpc q last e in
      (
        c,
        record { fuel = n; last = s.last; result = l; left = rw next at h2; enough = omega arith },
      )

  same_word : {q : ℕ} (c d : Checked f fs q) → c.word ≡ d.word
  same_word c d = some_injective (sym c.found ∙ d.found)

  module _ {l : ℕ}
      (passed : walk f fs (length f.code) no_reg (length f.code) 0 (length f.code - 1)
        ≡ pass l) where
    Seen-Rounds : {q : ℕ} → Seen q → Rounds (length f.code) q
    Seen-Rounds first = record {
      fuel = length f.code;
      last = length f.code - 1;
      result = l;
      left = passed;
      enough = omega arith;
    }
    Seen-Rounds (after q s c) =
        let r = Seen-Rounds s in
        let (d, next) =
          next_Rounds (length f.code) r.fuel q r.last r.result r.left r.enough
            (get_elem?-some f.code q c.found) in
        rw (same_word c d) next

    -- What the scan looks at has passed the checks.
    pub Seen-Checked : {q : ℕ} → Seen q → q < length f.code → Checked f fs q
    Seen-Checked {q} s below =
        let r = Seen-Rounds s in
        (next_Rounds (length f.code) r.fuel q r.last r.result r.left r.enough below).0

    -- The scan steps over nothing but counts.
    pub all_Visit : (q : ℕ) → q < length f.code → Visit q
    all_Visit zero below = seen first
    all_Visit (suc q) below = Visit-suc (all_Visit q (omega arith))
      where
        Visit-suc : Visit q → Visit (suc q)
        Visit-suc (seen s) =
            let c = Seen-Checked s (omega arith) in
            elim (Bool-cases (counts_next c.word)) [
              | inl counts ↦ hidden q refl s c counts
              | inr plain ↦ seen (rw (next_plain q plain) at (to_next s c))
            ]
        Visit-suc (hidden p e s c counts) =
            seen (rw (next_counts p counts ∙ ap suc (sym e)) at (to_next s c))
