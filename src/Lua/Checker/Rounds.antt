-- ===== src/Lua/Checker/Rounds.antt =====
-- The loop of the code checker ends (`symbexec` of open-ldb/ldebug.c).
use lua_eclipse_ide.Base.{
  ℕ, zero, suc, ◌+◌, ◌≤◌, ltb, ge→ltb, Bool-cases, inl, inr, ◌≡◌, refl, sym, arith,
}
use lua_eclipse_ide.Lua.Chunk.{ProtoFields, Protos}
use lua_eclipse_ide.Lua.Checker.{Check, pass, reject, stray, ◌>>=◌}
use lua_eclipse_ide.Lua.Checker.Symbexec.{step, walk}
use lua_eclipse_ide.Lua.Checker.Passed.{step-Checked}

same_bind {ℓ κ} :
    {A : Type ℓ} {B : Type κ} (m : Check A) (k l : A → Check B)
    → ((a : A) → m ≡ pass a → k a ≡ l a)
    → (m >>= k) ≡ (m >>= l)
same_bind (pass a) k l h = h a refl
same_bind reject k l h = refl
same_bind stray k l h = refl

more : (n lastpc pc s x : ℕ) → lastpc ≤ suc n + pc → s ≡ suc (pc + x) → lastpc ≤ n + s
more n lastpc pc s x h e = omega (arith, h, e)

module _ (f : ProtoFields) (fs : Protos) (lastpc reg : ℕ) where
  walk_past : (n pc last : ℕ) → lastpc ≤ pc → walk f fs lastpc reg n pc last ≡ pass last
  unfolding walk
  walk_past zero pc last h = refl
  walk_past (suc n) pc last h = rw (walk, ge→ltb pc lastpc h) refl

  -- From a position `pc` the loop of `symbexec` ends after at most `lastpc - pc` rounds: any two bounds
  -- on its rounds that are not smaller give the same result.
  pub walk_enough :
      (n m pc last : ℕ)
      → lastpc ≤ n + pc
      → lastpc ≤ m + pc
      → walk f fs lastpc reg n pc last ≡ walk f fs lastpc reg m pc last
  unfolding walk
  walk_enough zero m pc last h k = sym (walk_past m pc last (omega arith))
  walk_enough (suc n) zero pc last h k = walk_past (suc n) pc last (omega arith)
  walk_enough (suc n) (suc m) pc last h k = elim (Bool-cases (ltb pc lastpc)) [
    | inl e ↦
        rw (walk, e)
          (same_bind (step f fs lastpc reg pc last) _ _ (λ s q.
            let (c, next, _) = step-Checked f fs lastpc reg pc last q in
            walk_enough n m s.pc s.last (more n lastpc pc s.pc _ h next)
              (more m lastpc pc s.pc _ k next)))
    | inr e ↦ rw (walk, e) refl
  ]
