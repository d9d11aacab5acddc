-- ===== src/Lua/Checker/Inside.antt =====
-- No check of an instruction reads outside the arrays of the function (`symbexec` of
-- open-ldb/ldebug.c).
use lua_eclipse_ide.Base.{
  ℕ, zero, suc, ◌+◌, ◌-◌, ◌/◌, ◌%◌, ◌<◌, List, Bool, true, false, not, ◌&&◌, Option, none, some, ℤ,
  pos, negsuc, get_elem?, get_elem?_below, length, ltb, leb, ◌==◌, ltb→lt, split_if, ◌≡◌, ◌≢◌, refl,
  sym, arith,
}
use lua_eclipse_ide.Lua.Instructions.{
  OpCode, op_loadbool, op_getupval, op_setupval, op_getglobal, op_setglobal, op_self, op_concat,
  op_call, op_tailcall, op_return, op_forloop, op_forprep, op_tforloop, op_setlist, op_closure,
  op_vararg, OpArgMask, op_arg_n, op_arg_u, op_arg_r, op_arg_k, OpModes, opmodes, OpMode, i_abc,
  i_abx, i_asbx, getarg_b, getarg_c, getarg_bx, getarg_sbx, get_opcode, is_k,
}
use lua_eclipse_ide.Lua.Chunk.{ProtoFields, proto, Protos, no_protos, add_proto}
use lua_eclipse_ide.Lua.Chunk.Dump.{count_protos}
use lua_eclipse_ide.Lua.Checker.{
  Check, pass, reject, stray, ◌>>=◌, ◌>>◌, check, unless, read_from, is_string, is_return, is_jmp,
  counts_next, check_open_op, moves_upvalue, dest_of, Operands, nth_proto, read_code, check_reg,
  check_arg_mode, check_jump, check_bx, check_sbx, check_mode, check_skip, check_next_open,
  check_results, check_call, check_pseudo, check_closure, check_op,
}
use lua_eclipse_ide.Lua.Checker.Symbexec.{known}
use lua_eclipse_ide.Lua.Checker.Passed.{then-pass, check-pass, pass_injective}

-- The outcome is no read outside an array.
abbrev pub Inside {ℓ} : {A : Type ℓ} → Check A → Type 0
Inside (pass a) = Unit
Inside reject = Unit
Inside stray = ⊥

pub Inside-then {ℓ} :
    {A : Type ℓ} (m : Check (Unit {0})) (k : Check A)
    → Inside m
    → (m ≡ pass tt → Inside k)
    → Inside (m >> k)
Inside-then (pass tt) k h g = g refl
Inside-then reject k h g = tt
Inside-then stray k h g = absurd h

pub Inside-bind {ℓ κ} :
    {A : Type ℓ} {B : Type κ} (m : Check A) (k : A → Check B)
    → Inside m
    → ((a : A) → m ≡ pass a → Inside (k a))
    → Inside (m >>= k)
Inside-bind (pass a) k h g = g a refl
Inside-bind reject k h g = tt
Inside-bind stray k h g = absurd h

pub Inside-check : (b : Bool) → Inside (check b)
Inside-check true = tt
Inside-check false = tt

pub Inside-unless : (b : Bool) (m : Check (Unit {0})) → (b ≡ false → Inside m) → Inside (unless b m)
Inside-unless true m h = tt
Inside-unless false m h = h refl

pub Inside-known : (o : Option OpCode) → Inside (known o)
Inside-known none = tt
Inside-known (some op) = tt

pub Inside-read {ℓ} :
    {A : Type ℓ} (xs : List A) (n : ℕ) → n < length xs → Inside (read_from (get_elem? xs n))
Inside-read xs n h = rw (get_elem?_below n xs h).1 tt

pub Inside-not_stray {ℓ} : {A : Type ℓ} (m : Check A) → Inside m → m ≢ stray
Inside-not_stray (pass a) h = λ e. cc
Inside-not_stray reject h = λ e. cc
Inside-not_stray stray h = absurd h

nth_proto_below :
    (fs : Protos) (n : ℕ) → n < count_protos fs → (p : ProtoFields) × (nth_proto fs n ≡ some p)
nth_proto_below no_protos n h = absurd (omega arith)
nth_proto_below (add_proto (proto f gs) fs) zero h = (f, refl)
nth_proto_below (add_proto (proto f gs) fs) (suc n) h = nth_proto_below fs n (omega arith)

below_suc : (d n : ℕ) → ltb (suc d) n ≡ true → d < n
below_suc d n h = ground arith

below_two : (d n : ℕ) → ltb (d + 2) n ≡ true → suc d < n
below_two d n h = ground arith

module _ (f : ProtoFields) (fs : Protos) where
  Inside-jump : (z : ℤ) → Inside (check_jump f fs z)
  unfolding check_jump
  Inside-jump (negsuc n) = tt
  Inside-jump (pos zero) = Inside-check _
  Inside-jump (pos (suc d)) =
      Inside-then (check (ltb (suc d) (length f.code))) _ (Inside-check _) (λ h.
        Inside-bind (read_code f fs d) (λ i. check (not (counts_next i)))
          (Inside-read f.code d (below_suc d (length f.code) (check-pass _ h)))
          (λ i e. Inside-check (not (counts_next i))))

  Inside-arg : (r : ℕ) (m : OpArgMask) → Inside (check_arg_mode f fs r m)
  unfolding check_arg_mode
  Inside-arg r op_arg_n = Inside-check _
  Inside-arg r op_arg_u = tt
  Inside-arg r op_arg_r = Inside-check _
  Inside-arg r op_arg_k = split_if Inside (is_k r) _ _ (λ h. Inside-check _) (λ h. Inside-check _)

  pub Inside-mode : (pc i : ℕ) (m : OpModes) (k : OpMode) → Inside (check_mode f fs pc i m k)
  Inside-mode pc i m i_abc =
      Inside-then (check_arg_mode f fs (getarg_b i) m.b_mode) _ (Inside-arg _ _)
        (λ h. Inside-then (check_arg_mode f fs (getarg_c i) m.c_mode) _ (Inside-arg _ _) (λ k. tt))
  Inside-mode pc i m i_abx =
      Inside-then (check_bx f fs m.b_mode (getarg_bx i)) _ (Inside-bx m.b_mode) (λ h. tt)
    where
      Inside-bx : (m : OpArgMask) → Inside (check_bx f fs m (getarg_bx i))
      Inside-bx op_arg_k = Inside-check _
      Inside-bx _ = tt
  Inside-mode pc i m i_asbx =
      Inside-then (check_sbx f fs m.b_mode (dest_of pc (getarg_sbx i))) _ (Inside-sbx m.b_mode)
        (λ h. tt)
    where
      Inside-sbx : (m : OpArgMask) → Inside (check_sbx f fs m (dest_of pc (getarg_sbx i)))
      Inside-sbx op_arg_r = Inside-jump _
      Inside-sbx _ = tt

  Inside-pseudo : (n pc : ℕ) → pc + n < length f.code → Inside (check_pseudo f fs pc n)
  Inside-pseudo zero pc h = tt
  Inside-pseudo (suc n) pc h =
      Inside-bind (read_code f fs (suc pc)) _ (Inside-read f.code (suc pc) (omega arith)) (λ i e.
        Inside-then (check (moves_upvalue (get_opcode i))) _ (Inside-check _)
          (λ k. Inside-pseudo n (suc pc) (omega arith)))

  pub Inside-skip : (pc : ℕ) → Inside (check_skip f fs pc)
  Inside-skip pc = Inside-then (check (ltb (pc + 2) (length f.code))) _ (Inside-check _) (λ h.
      Inside-bind (read_code f fs (suc pc)) (λ i. check (is_jmp (get_opcode i)))
        (Inside-read f.code (suc pc) (below_two pc (length f.code) (check-pass _ h)))
        (λ i e. Inside-check (is_jmp (get_opcode i))))

  Inside-closure : (pc b : ℕ) → Inside (check_closure f fs pc b)
  Inside-closure pc b = Inside-then (check (ltb b (count_protos fs))) _ (Inside-check _) (λ h.
      Inside-bind (read_from (nth_proto fs b)) _
        (rw (nth_proto_below fs b (ltb→lt b (count_protos fs) (check-pass _ h))).1 tt)
        (λ p e.
          Inside-then (check (ltb (pc + p.nups) (length f.code))) _ (Inside-check _)
            (λ k. Inside-pseudo p.nups pc (ltb→lt (pc + p.nups) (length f.code) (check-pass _ k)))))

  Inside-open : (pc : ℕ) → suc pc < length f.code → Inside (check_next_open f fs pc)
  Inside-open pc h =
      Inside-bind (read_code f fs (suc pc)) (λ i. check (check_open_op i))
        (Inside-read f.code (suc pc) h) (λ i e. Inside-check (check_open_op i))

  Inside-call : (pc : ℕ) (o : Operands) → suc pc < length f.code → Inside (check_call f fs pc o)
  Inside-call pc o h =
      Inside-then (unless (o.b == 0) (check_reg f fs (o.a + o.b - 1))) _
        (Inside-unless (o.b == 0) _ (λ k. Inside-check _)) (λ k. Inside-results o.c)
    where
      Inside-results : (c : ℕ) → Inside (check_results f fs pc o.a c)
      Inside-results zero = Inside-open pc h
      Inside-results (suc zero) = tt
      Inside-results (suc (suc n)) = Inside-check _

  -- The name of a global variable is a constant of the function.
  Inside-global :
      (r : Operands) {o : Operands}
      → (check (ltb r.b (length f.k)) >> pass r) ≡ pass o
      → Inside (read_from (get_elem? f.k o.b) >>= λ k. check (is_string k))
  Inside-global r {o} h =
      let (e, same) = then-pass (check (ltb r.b (length f.k))) (pass r) h in
      rw (sym (pass_injective r o same)) (
        Inside-bind (read_from (get_elem? f.k r.b)) (λ k. check (is_string k))
          (Inside-read f.k r.b (ltb→lt r.b (length f.k) (check-pass _ e)))
          (λ k q. Inside-check (is_string k)))

  pub Inside-op :
      (op : OpCode) (pc i : ℕ) {o : Operands}
      → check_mode f fs pc i (opmodes op) (opmodes op).mode ≡ pass o
      → (is_return (some op) ≡ false → suc pc < length f.code)
      → Inside (check_op f fs op pc o)
  unfolding check_op
  Inside-op op_loadbool pc i m next = Inside-check _
  Inside-op op_getupval pc i m next = Inside-check _
  Inside-op op_setupval pc i m next = Inside-check _
  Inside-op op_getglobal pc i m next = Inside-global _ m
  Inside-op op_setglobal pc i m next = Inside-global _ m
  Inside-op op_self pc i m next = Inside-check _
  Inside-op op_concat pc i m next = Inside-check _
  Inside-op op_tforloop pc i {o} m next =
      Inside-then (check (leb 1 o.c)) _ (Inside-check _) (λ h. Inside-check _)
  Inside-op op_forloop pc i m next = Inside-check _
  Inside-op op_forprep pc i m next = Inside-check _
  Inside-op op_call pc i {o} m next = Inside-call pc o (next refl)
  Inside-op op_tailcall pc i {o} m next = Inside-call pc o (next refl)
  Inside-op op_return pc i {o} m next = Inside-unless (leb o.b 1) _ (λ h. Inside-check _)
  Inside-op op_setlist pc i {o} m next = Inside-unless (o.b == 0) _ (λ h. Inside-check _)
  Inside-op op_closure pc i {o} m next = Inside-closure pc o.b
  Inside-op op_vararg pc i {o} m next =
      Inside-then (check (f.is_vararg / 2 % 2 == 1 && f.is_vararg / 4 % 2 == 0)) _ (Inside-check _)
        (λ h.
          Inside-then (unless (not (o.b == 0)) (check_next_open f fs pc)) _
            (Inside-unless (not (o.b == 0)) _ (λ k. Inside-open pc (next refl)))
            (λ k. Inside-check _))
  Inside-op _ pc i m next = tt
