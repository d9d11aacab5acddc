-- ===== src/Lua/Checker/Reads.antt =====
-- The code checker reads nothing outside the arrays of a function (`symbexec` of
-- open-ldb/ldebug.c).
use lua_eclipse_ide.Base.{
  ℕ, zero, suc, ◌-◌, ◌<◌, ◌≤◌, Bool, true, false, not, ◌||◌, some, get_elem?, get_elem?-some,
  length, ltb, leb, ◌==◌, ltb→lt, ltb→ge, Bool-cases, some_injective, inl, inr, split_if, ◌≡◌, ◌≢◌,
  refl, sym, ap, ◌∙◌, arith,
}
use lua_eclipse_ide.Lua.Instructions.{OpCode, opmodes, getarg_a, get_opcode}
use lua_eclipse_ide.Lua.Chunk.{ProtoFields, Protos}
use lua_eclipse_ide.Lua.Checker.{
  Check, pass, reject, stray, ◌>>=◌, check, unless, is_return, read_code, check_reg, last_code,
  precheck, check_mode, check_skip, check_op,
}
use lua_eclipse_ide.Lua.Checker.Symbexec.{known, changes, step, walk, symbexec}
use lua_eclipse_ide.Lua.Checker.Accept.{precheck-pass, last_code-pass}
use lua_eclipse_ide.Lua.Checker.Passed.{known-pass, read_from-pass, step-Checked}
use lua_eclipse_ide.Lua.Checker.Inside.{
  Inside, Inside-then, Inside-bind, Inside-check, Inside-unless, Inside-known, Inside-read,
  Inside-not_stray, Inside-mode, Inside-skip, Inside-op,
}

-- The outcome is a position below `n`.
abbrev Points : ℕ → Check ℕ → Type 0
Points n (pass l) = l < n
Points n reject = Unit
Points n stray = ⊥

Points-bind {ℓ} :
    {A : Type ℓ} (n : ℕ) (m : Check A) (k : A → Check ℕ)
    → Inside m
    → ((a : A) → m ≡ pass a → Points n (k a))
    → Points n (m >>= k)
Points-bind n (pass a) k h g = g a refl
Points-bind n reject k h g = tt
Points-bind n stray k h g = absurd h

inside : (pc lastpc n : ℕ) → ltb pc lastpc ≡ true → lastpc ≤ n → pc < n
inside pc lastpc n h k = ground arith

top_index : (pc n top : ℕ) → pc < n → n ≤ suc pc → n ≡ suc top → pc ≡ top
top_index pc n top h k e = omega arith

clash : {b : Bool} → b ≡ true → b ≡ false → ⊥
clash h k = cc

module _ (f : ProtoFields) (fs : Protos) where
  Inside-precheck : 0 < length f.code → Inside (precheck f fs)
  unfolding precheck
  Inside-precheck h = Inside-then (check (leb f.maxstacksize 250)) _ (Inside-check _) (λ e1.
      Inside-then (check (leb (length f.upvalues) f.nups)) _ (Inside-check _) (λ e2.
        Inside-then (check (length f.lineinfo == length f.code || length f.lineinfo == 0)) _
          (Inside-check _)
          (λ e3.
            Inside-bind (last_code f fs (length f.code)) (λ i. check (is_return (get_opcode i)))
              (Inside-last (length f.code) h (omega arith))
              (λ i e4. Inside-check (is_return (get_opcode i))))))
    where
      Inside-last : (n : ℕ) → 0 < n → n ≤ length f.code → Inside (last_code f fs n)
      Inside-last zero h k = absurd (omega arith)
      Inside-last (suc n) h k = Inside-read f.code n (omega arith)

  -- `last` is a position.
  Inside-read_from : (m : Check ℕ) → Points (length f.code) m → Inside (m >>= λ l. read_code f fs l)
  Inside-read_from (pass l) h = Inside-read f.code l h
  Inside-read_from reject h = tt
  Inside-read_from stray h = absurd h

  -- The last instruction returns.
  module _ (top final : ℕ) (size : length f.code ≡ suc top)
      (at_top : get_elem? f.code top ≡ some final)
      (is_final : is_return (get_opcode final) ≡ true) where
    not_last :
        (pc i : ℕ) (op : OpCode)
        → get_elem? f.code pc ≡ some i
        → get_opcode i ≡ some op
        → is_return (some op) ≡ false
        → suc pc < length f.code
    not_last pc i op h k r = elim (Bool-cases (ltb (suc pc) (length f.code))) [
      | inl e ↦ ltb→lt (suc pc) (length f.code) e
      | inr e ↦
          let same =
            top_index pc (length f.code) top (get_elem?-some f.code pc h)
              (ltb→ge (suc pc) (length f.code) e) size in
          let word = some_injective (sym (rw same at h) ∙ at_top) in
          absurd
            (clash (ap is_return (sym k) ∙ ap (λ w. is_return (get_opcode w)) word ∙ is_final) r)
    ]

    Inside-step :
        (lastpc reg pc last : ℕ) → pc < length f.code → Inside (step f fs lastpc reg pc last)
    unfolding step
    Inside-step lastpc reg pc last below =
        Inside-bind (read_code f fs pc) _ (Inside-read f.code pc below) (λ i e1.
          Inside-bind (known (get_opcode i)) _ (Inside-known (get_opcode i)) (λ op e2.
            Inside-then (check_reg f fs (getarg_a i)) _ (Inside-check _) (λ e3.
              Inside-bind (check_mode f fs pc i (opmodes op) (opmodes op).mode) _
                (Inside-mode f fs pc i (opmodes op) (opmodes op).mode)
                (λ o e4.
                  Inside-then (unless (not (opmodes op).is_test) (check_skip f fs pc)) _
                    (Inside-unless (not (opmodes op).is_test) _ (λ e5. Inside-skip f fs pc))
                    (λ e5.
                      Inside-then (check_op f fs op pc o) _
                        (Inside-op f fs op pc i e4
                          (not_last pc i op (read_from-pass _ e1) (known-pass _ e2)))
                        (λ e6. tt))))))

    Points-walk :
        (lastpc reg n pc last : ℕ)
        → lastpc ≤ length f.code
        → last < length f.code
        → Points (length f.code) (walk f fs lastpc reg n pc last)
    unfolding walk
    Points-walk lastpc reg zero pc last h k = k
    Points-walk lastpc reg (suc n) pc last h k = elim (Bool-cases (ltb pc lastpc)) [
      | inl e ↦
          let below = inside pc lastpc (length f.code) e h in
          rw (Points, walk, e)
            (Points-bind (length f.code) (step f fs lastpc reg pc last) _
              (Inside-step lastpc reg pc last below)
              (λ s q.
                let (c, _, changed) = step-Checked f fs lastpc reg pc last q in
                Points-walk lastpc reg n s.pc s.last h (
                  rw changed (
                    split_if (λ x. x < length f.code) (changes c.op reg c.args) pc last (λ _. below)
                      (λ _. k)))))
      | inr e ↦ rw (Points, walk, e) k
    ]

  Inside-symbexec :
      (lastpc reg : ℕ)
      → 0 < length f.code
      → lastpc ≤ length f.code
      → Inside (symbexec f fs lastpc reg)
  unfolding symbexec
  Inside-symbexec lastpc reg some_code h =
      Inside-then (precheck f fs) _ (Inside-precheck some_code) (λ e.
        let (i, e1, e2) = precheck-pass f fs e in
        let (top, size, at_top) = last_code-pass f fs (length f.code) e1 in
        Inside-read_from (walk f fs lastpc reg lastpc 0 (length f.code - 1)) (
          Points-walk top i size at_top e2 lastpc reg lastpc 0 (length f.code - 1) h (omega arith)))

-- For a function that has instructions, `symbexec` reads nothing outside the function's arrays of
-- instructions, constants and inner functions, whatever the register that it traces is and whatever
-- the words of the code are, up to any `lastpc` that is not past the end.
pub symbexec-stray :
    (f : ProtoFields) (fs : Protos) (lastpc reg : ℕ)
    → 0 < length f.code
    → lastpc ≤ length f.code
    → symbexec f fs lastpc reg ≢ stray
symbexec-stray f fs lastpc reg h k = Inside-not_stray _ (Inside-symbexec f fs lastpc reg h k)
