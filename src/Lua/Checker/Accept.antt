-- ===== src/Lua/Checker/Accept.antt =====
-- What the code checker has shown when it accepts a function (`luaG_checkcode` of
-- open-ldb/ldebug.c).
use lua_eclipse_ide.Base.{
  ℕ, zero, suc, ◌-◌, ◌<◌, ◌≤◌, true, false, not, ◌&&◌, ◌||◌, some, ℤ, pos, negsuc, List, [], ◌∷◌,
  get_elem?, get_elem?-some, length, ltb, leb, ◌==◌, ltb→lt, ltb→ge, Bool-cases, some_injective,
  all_three, excluded, not-true, not-false, leb→le, ◌⊎◌, inl, inr, ◌≡◌, refl, sym, ap, ◌∙◌, arith,
}
use lua_eclipse_ide.Lua.Instructions.{
  OpCode, op_jmp, op_return, op_forloop, op_forprep, op_eq, op_lt, op_le, op_test, op_testset,
  op_tforloop, opmodes, getarg_sbx, get_opcode, no_reg,
}
use lua_eclipse_ide.Lua.Chunk.{ProtoFields, Protos}
use lua_eclipse_ide.Lua.Checker.{
  pass, check, is_return, is_setlist, counts_next, dest_of, read_code, last_code, precheck,
  check_jump, check_mode,
}
use lua_eclipse_ide.Lua.Checker.Symbexec.{walk, symbexec, check_code}
use lua_eclipse_ide.Lua.Checker.Passed.{then-pass, bind-pass, check-pass, read_from-pass, Checked}
use lua_eclipse_ide.Lua.Checker.Scan.{Seen, first, Visit, seen, hidden, Seen-Checked, all_Visit}
use lua_eclipse_ide.Lua.Checker.Flow.{
  tests, jumps, loops, returns, flow_of, Fetched, bool_skips, counts_first, no_holes,
}

pub plain_op :
    (i : ℕ) (op : OpCode)
    → get_opcode i ≡ some op
    → is_setlist (some op) ≡ false
    → counts_next i ≡ false
unfolding counts_next
plain_op i op h k = rw (h, k) refl

no_holes_parts :
    (x : ℕ) (xs : List ℕ)
    → no_holes (x ∷ xs) ≡ true
    → (not (counts_next x && not (leb 2 (length xs))) ≡ true)
      × (not (bool_skips x && counts_first xs) ≡ true)
      × (no_holes xs ≡ true)
no_holes_parts x xs h =
    all_three (not (counts_next x && not (leb 2 (length xs))))
      (not (bool_skips x && counts_first xs)) (no_holes xs) h

no_holes_here :
    (x : ℕ) (xs : List ℕ) → no_holes (x ∷ xs) ≡ true → counts_next x ≡ true → 2 < length (x ∷ xs)
no_holes_here x xs h c =
    let fits = excluded (counts_next x) (not (leb 2 (length xs))) (no_holes_parts x xs h).0 c in
    omega (arith, leb→le 2 (length xs) (not-false (leb 2 (length xs)) fits))

pub no_holes-count :
    (code : List ℕ) (pc i : ℕ)
    → no_holes code ≡ true
    → get_elem? code pc ≡ some i
    → counts_next i ≡ true
    → suc (suc pc) < length code
no_holes-count [] pc i h at c = cc
no_holes-count (x ∷ xs) zero i h at c = no_holes_here x xs h (rw (some_injective at) c)
no_holes-count (x ∷ xs) (suc pc) i h at c =
    omega (arith, no_holes-count xs pc i (no_holes_parts x xs h).2 at c)

pub no_holes-skip :
    (code : List ℕ) (pc i j : ℕ)
    → no_holes code ≡ true
    → get_elem? code pc ≡ some i
    → bool_skips i ≡ true
    → get_elem? code (suc pc) ≡ some j
    → counts_next j ≡ false
no_holes-skip [] pc i j h at s next = cc
no_holes-skip (x ∷ []) zero i j h at s next = cc
no_holes-skip (x ∷ y ∷ xs) zero i j h at s next = rw (sym (some_injective next)) (
    excluded (bool_skips x) (counts_next y) (no_holes_parts x (y ∷ xs) h).1
      (rw (some_injective at) s))
no_holes-skip (x ∷ xs) (suc pc) i j h at s next =
    no_holes-skip xs pc i j (no_holes_parts x xs h).2 at s next

no_clash :
    (f : ProtoFields) (q p i w : ℕ)
    → q ≡ p
    → get_elem? f.code q ≡ some i
    → get_elem? f.code p ≡ some w
    → counts_next i ≡ false
    → counts_next w ≡ true
    → ⊥
no_clash f q p i w e at found plain counts = cc

module _ (f : ProtoFields) (fs : Protos) where
  -- The jump of an instruction has been checked.
  pub jump-pass :
      (op : OpCode) (pc i : ℕ) {o : _}
      → (flow_of op ≡ jumps) ⊎ (flow_of op ≡ loops)
      → check_mode f fs pc i (opmodes op) (opmodes op).mode ≡ pass o
      → check_jump f fs (dest_of pc (getarg_sbx i)) ≡ pass tt
  jump-pass op_jmp pc i k h = (then-pass _ _ h).0
  jump-pass op_forloop pc i k h = (then-pass _ _ h).0
  jump-pass op_forprep pc i k h = (then-pass _ _ h).0
  jump-pass _ pc i (inl k) h = cc
  jump-pass _ pc i (inr k) h = cc

  pub test-pass : (op : OpCode) → flow_of op ≡ tests → (opmodes op).is_test ≡ true
  test-pass op_eq h = refl
  test-pass op_lt h = refl
  test-pass op_le h = refl
  test-pass op_test h = refl
  test-pass op_testset h = refl
  test-pass op_tforloop h = refl
  test-pass _ h = cc

  pub last_code-pass :
      (n : ℕ) {i : ℕ}
      → last_code f fs n ≡ pass i
      → (m : ℕ) × (n ≡ suc m) × (get_elem? f.code m ≡ some i)
  last_code-pass zero h = cc
  last_code-pass (suc n) h = (n, refl, read_from-pass (get_elem? f.code n) h)

  pub precheck-pass :
      precheck f fs ≡ pass tt
      → (i : ℕ) × (last_code f fs (length f.code) ≡ pass i) × (is_return (get_opcode i) ≡ true)
  unfolding precheck
  precheck-pass h =
      let (_, h1) = then-pass (check (leb f.maxstacksize 250)) _ h in
      let (_, h2) = then-pass (check (leb (length f.upvalues) f.nups)) _ h1 in
      let (_, h3) =
        then-pass (check (length f.lineinfo == length f.code || length f.lineinfo == 0)) _ h2 in
      let (i, e, h4) =
        bind-pass (last_code f fs (length f.code)) (λ i. check (is_return (get_opcode i))) h3 in
      (i, e, check-pass (is_return (get_opcode i)) h4)

  -- The last instruction, and the scan.
  pub record Accepted : Type 0 where
    pub final : ℕ
    pub top : ℕ
    pub size : length f.code ≡ suc top
    pub at_top : get_elem? f.code top ≡ some final
    pub is_final : is_return (get_opcode final) ≡ true
    pub result : ℕ
    pub scanned :
        walk f fs (length f.code) no_reg (length f.code) 0 (length f.code - 1) ≡ pass result

  pub accept : check_code f fs ≡ pass tt → Accepted
  unfolding check_code symbexec precheck
  accept h =
      let (j, h1, h1b) = bind-pass (symbexec f fs (length f.code) no_reg) _ h in
      let (p, h2) = then-pass (precheck f fs) _ h1 in
      let (l, h3, h3b) =
        bind-pass (walk f fs (length f.code) no_reg (length f.code) 0 (length f.code - 1)) _ h2 in
      let (i, p7, p8) = precheck-pass p in
      let (m, e1, e2) = last_code-pass (length f.code) p7 in
      record { final = i; top = m; size = e1; at_top = e2; is_final = p8; result = l; scanned = h3 }

  return_op : (op : OpCode) → is_return (some op) ≡ true → flow_of op ≡ returns
  return_op op_return h = refl
  return_op _ h = cc

  -- The scan looks at the position, and it is inside.
  abbrev pub On : ℕ → Type 0
  On q = Seen f fs q × (q < length f.code)

  module _ (ok : Accepted) where
    pub On-Checked : (q : ℕ) → On q → Checked f fs q
    On-Checked q (s, below) = Seen-Checked f fs ok.scanned s below

    pub On-zero : On 0
    On-zero = (first, omega (arith, ok.size))

    top_index : (q : ℕ) → q < length f.code → length f.code ≤ suc q → q ≡ ok.top
    top_index q h k = omega (arith, ok.size)

    ends_code : (q i : ℕ) (op : OpCode) → q ≡ ok.top → Fetched f q i op → is_return (some op) ≡ true
    ends_code q i op e at =
        ap is_return (sym at.is_op)
        ∙ ap (λ w. is_return (get_opcode w))
            (some_injective (sym at.at ∙ ap (get_elem? f.code) e ∙ ok.at_top))
        ∙ ok.is_final

    -- After an instruction that does not return there is another one.
    pub goes_on :
        (q i : ℕ) (op : OpCode)
        → Fetched f q i op
        → (flow_of op ≡ returns → ⊥)
        → suc q < length f.code
    goes_on q i op at k = elim (Bool-cases (ltb (suc q) (length f.code))) [
      | inl inside ↦ ltb→lt (suc q) (length f.code) inside
      | inr out ↦ absurd (
          k (
            return_op op (
              ends_code q i op
                (top_index q (get_elem?-some f.code q at.at) (ltb→ge (suc q) (length f.code) out))
                at)))
    ]

    -- The scan looks at the position after a word that is no `OP_SETLIST` with a count.
    pub On-suc :
        (q i : ℕ)
        → get_elem? f.code q ≡ some i
        → counts_next i ≡ false
        → suc q < length f.code
        → On (suc q)
    On-suc q i at plain below = (split (all_Visit f fs ok.scanned (suc q) below), below)
      where
        split : Visit f fs (suc q) → Seen f fs (suc q)
        split (seen s) = s
        split (hidden p e s c counts) =
            absurd (no_clash f q p i c.word (omega (arith, e)) at c.found plain counts)

    pub On-jump : (z : ℤ) → check_jump f fs z ≡ pass tt → (q : ℕ) × (z ≡ pos q) × On q
    unfolding check_jump
    On-jump (negsuc n) h = cc
    On-jump (pos zero) h = (0, refl, On-zero)
    On-jump (pos (suc d)) h =
        let (e1, h1) = then-pass (check (ltb (suc d) (length f.code))) _ h in
        let (i, e2, h2) = bind-pass (read_code f fs d) (λ i. check (not (counts_next i))) h1 in
        let plain = not-true (counts_next i) (check-pass (not (counts_next i)) h2) in
        (
          suc d,
          refl,
          On-suc d i (read_from-pass (get_elem? f.code d) e2) plain (ltb→lt _ _ (check-pass _ e1)),
        )
