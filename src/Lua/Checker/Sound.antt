-- ===== src/Lua/Checker/Sound.antt =====
-- Control stays inside a function that the code checker accepts (`luaG_checkcode` of
-- open-ldb/ldebug.c, `luaV_execute` of open-ldb/lvm.c).
use lua_eclipse_ide.Base.{
  ℕ, suc, ◌+◌, ◌<◌, true, not, ℤ, pos, length, ◌==◌, Bool-cases, inl, inr, ◌≡◌, refl, sym,
}
use lua_eclipse_ide.Lua.Instructions.{op_loadbool, getarg_c}
use lua_eclipse_ide.Lua.Chunk.{ProtoFields, Protos}
use lua_eclipse_ide.Lua.Checker.{pass, one_if}
use lua_eclipse_ide.Lua.Checker.Symbexec.{check_code}
use lua_eclipse_ide.Lua.Checker.Passed.{Checked}
use lua_eclipse_ide.Lua.Checker.Accept.{Accepted, accept, On, On-Checked, On-zero}
use lua_eclipse_ide.Lua.Checker.Flow.{
  Fetched, Next, straight_on, bool_loaded, test_passed, test_jumped, jumped, loop_ended,
  loop_jumped, list_set, closure_made, Reach, entry, onward, no_holes,
}
use lua_eclipse_ide.Lua.Checker.Targets.{
  skips_op, list_op, closure_op, pos_injective, zero_right, falls, jump-On, test-On, test_jump-On,
  closure-On, skip-On, list-On,
}

module _ (f : ProtoFields) (fs : Protos) (ok : Accepted f fs) where
  module _ (safe : no_holes f.code ≡ true) where
    bool-On :
        (q i : ℕ)
        → On f fs q
        → Fetched f q i op_loadbool
        → On f fs (suc (q + one_if (not (getarg_c i == 0))))
    bool-On q i on got = elim (Bool-cases (getarg_c i == 0)) [
      | inl e ↦ rw (e, zero_right q) (falls f fs ok q i op_loadbool on got (λ r. cc) (λ l. cc))
      | inr e ↦ rw e (skip-On f fs ok safe q i on got e)
    ]

    -- One instruction.
    Next-On : (q : ℕ) {z : ℤ} → On f fs q → Next f fs q z → (p : ℕ) × (z ≡ pos p) × On f fs p
    Next-On q on (straight_on {i} {op} got h) =
        (suc q, refl, falls f fs ok q i op on got (λ r. cc) (λ l. cc))
    Next-On q on (bool_loaded {i} {op} got h) =
        (_, refl, bool-On q i on (rw (skips_op op h) at got))
    Next-On q on (test_passed {i} {op} got h) = (suc (suc q), refl, test-On f fs ok q i op on got h)
    Next-On q on (test_jumped {i} {j} {op} got h e) = test_jump-On f fs ok q i j op on got h e
    Next-On q on (jumped {i} {op} got h) = jump-On f fs ok q i op on got (inl h)
    Next-On q on (loop_ended {i} {op} got h) =
        (suc q, refl, falls f fs ok q i op on got (λ r. cc) (λ l. cc))
    Next-On q on (loop_jumped {i} {op} got h) = jump-On f fs ok q i op on got (inr h)
    Next-On q on (list_set {i} {op} got h) =
        (_, refl, list-On f fs ok safe q i on (rw (list_op op h) at got))
    Next-On q on (closure_made {i} {op} {p} got h e) =
        (_, refl, closure-On f fs ok q i on (rw (closure_op op h) at got) e)

    Reach-On : {z : ℤ} → Reach f fs z → (p : ℕ) × (z ≡ pos p) × On f fs p
    Reach-On entry = (0, refl, On-zero f fs ok)
    Reach-On (onward {pc} r n) =
        let (p, e, on) = Reach-On r in Next-On pc (rw (pos_injective (sym e)) at on) n

-- In a function that `luaG_checkcode` accepts, in which the word after a `OP_SETLIST` with C = 0 is
-- never the last and no `OP_LOADBOOL` skips such an `OP_SETLIST`, every `pc` that `luaV_execute` can
-- come to is a position inside the code whose instruction has passed every check of the checker.
pub Reach-Checked :
    (f : ProtoFields) (fs : Protos)
    → check_code f fs ≡ pass tt
    → no_holes f.code ≡ true
    → {z : ℤ} → Reach f fs z
    → (pc : ℕ) × (z ≡ pos pc) × (pc < length f.code) × Checked f fs pc
Reach-Checked f fs h safe r =
    let ok = accept f fs h in
    let (pc, e, on) = Reach-On f fs ok safe r in (pc, e, on.1, On-Checked f fs ok pc on)
