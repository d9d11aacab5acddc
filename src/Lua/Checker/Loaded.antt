-- ===== src/Lua/Checker/Loaded.antt =====
-- Loading a chunk with the code checker (open-ldb/lundump.c, open-ldb/ldebug.c).
use lua_eclipse_ide.Base.{
  ℕ, zero, suc, List, [], ◌∷◌, Bytes, Option, ◌≡◌, refl, codes, length, some,
}
use lua_eclipse_ide.Lua.Chunk.{ProtoFields, Proto, Protos, proto, no_protos, add_proto}
use lua_eclipse_ide.Lua.Chunk.Load.{
  Loaded, loaded, failed, Loader, ◌>>=◌, pure, fail, load_times, load_int, load_list, load_fields,
  load_debug, load_function, load_block, check_header, protos, checked, undump, Verdict, accepted,
  refused, out_of_bounds, after_check,
}
use lua_eclipse_ide.Lua.Checker.{Check, pass, reject, stray}
use lua_eclipse_ide.Lua.Checker.Symbexec.{check_code}

abbrev verdict : Check (Unit {0}) → Verdict
verdict (pass a) = accepted
verdict reject = refused
verdict stray = out_of_bounds

-- `luaG_checkcode` as the loader calls it.
abbrev pub accepts : Proto → Verdict
accepts (proto f fs) = verdict (check_code f fs)

-- A check accepts a function and all functions inside it.
mutual
  pub Every : (Proto → Verdict) → Proto → Type 0
  Every c (proto f fs) = (c (proto f fs) ≡ accepted) × EveryInner c fs

  pub EveryInner : (Proto → Verdict) → Protos → Type 0
  EveryInner c no_protos = Unit
  EveryInner c (add_proto f fs) = Every c f × EveryInner c fs

abbrev All {ℓ} : {A : Type ℓ} → (A → Type 0) → List A → Type 0
All P [] = Unit
All P (x ∷ xs) = P x × All P xs

abbrev Yields {ℓ} : {A : Type ℓ} → (A → Type 0) → Loaded A → Type 0
Yields P (loaded a r) = P a
Yields P (failed e) = Unit

-- What `m` loads satisfies `P`.
record Gives {ℓ} {A : Type ℓ} (P : A → Type 0) (m : Loader A) : Type 0 where
  at : (s : Bytes) → Yields P (m s)

Gives-bind {ℓ κ} :
    {A : Type ℓ} {B : Type κ} (Q : A → Type 0) (P : B → Type 0) (m : Loader A) (k : A → Loader B)
    → Gives Q m
    → ((a : A) → Q a → Gives P (k a))
    → Gives P (m >>= k)
unfolding ◌>>=◌
Gives-bind {A = A} Q P m k h g = record { at = λ s. split (m s) (h.at s) }
  where
    split :
        (r : Loaded A) → Yields Q r → Yields P (elim r [ loaded a t ↦ k a t | failed e ↦ failed e ])
    split (loaded a t) q = (g a q).at t
    split (failed e) q = tt

Gives-pure {ℓ} : {A : Type ℓ} (P : A → Type 0) (a : A) → P a → Gives P (pure a)
unfolding pure
Gives-pure P a h = record { at = λ s. h }

abbrev Any {ℓ} : {A : Type ℓ} → A → Type 0
Any a = Unit

Gives-Any {ℓ} : {A : Type ℓ} (m : Loader A) → Gives Any m
Gives-Any {A = A} m = record { at = λ s. any (m s) }
  where
    any : (r : Loaded A) → Yields Any r
    any (loaded a r) = tt
    any (failed e) = tt

load_times-All {ℓ} :
    {A : Type ℓ} (P : A → Type 0) (n : ℕ) (m : Loader A)
    → Gives P m
    → Gives (All P) (load_times n m)
unfolding load_times
load_times-All P zero m h = Gives-pure (All P) [] tt
load_times-All P (suc n) m h = Gives-bind P (All P) m _ h (λ x p.
    Gives-bind (All P) (All P) (load_times n m) _ (load_times-All P n m h)
      (λ xs ps. Gives-pure (All P) (x ∷ xs) (p, ps)))

load_list-All {ℓ} :
    {A : Type ℓ} (P : A → Type 0) (m : Loader A) → Gives P m → Gives (All P) (load_list m)
unfolding load_list
load_list-All P m h =
    Gives-bind Any (All P) load_int (λ n. load_times n m) (Gives-Any load_int)
      (λ n _. load_times-All P n m h)

module _ (c : Proto → Verdict) where
  protos-EveryInner : (fs : List Proto) → All (Every c) fs → EveryInner c (protos fs)
  unfolding EveryInner
  protos-EveryInner [] h = tt
  protos-EveryInner (f ∷ fs) h = (h.0, protos-EveryInner fs h.1)

  checked-Every :
      (f : ProtoFields) (fs : Protos) → EveryInner c fs → Gives (Every c) (checked c (proto f fs))
  unfolding fail Every
  checked-Every f fs h = by_verdict (c (proto f fs)) refl
    where
      by_verdict : (v : Verdict) → c (proto f fs) ≡ v → Gives (Every c) (after_check v (proto f fs))
      by_verdict accepted e = Gives-pure (Every c) (proto f fs) (e, h)
      by_verdict refused e = record { at = λ s. tt }
      by_verdict out_of_bounds e = record { at = λ s. tt }

  load_function-Every : (n : ℕ) (p : Option Bytes) → Gives (Every c) (load_function c n p)
  unfolding load_function fail
  load_function-Every zero p = record { at = λ s. tt }
  load_function-Every (suc n) p =
      Gives-bind Any (Every c) (load_fields p) _ (Gives-Any (load_fields p)) (λ f _.
        Gives-bind (All (Every c)) (Every c) (load_list (load_function c n f.source)) _
          (load_list-All (Every c) (load_function c n f.source) (load_function-Every n f.source))
          (λ fs hs.
            Gives-bind Any (Every c) (load_debug f) _ (Gives-Any (load_debug f))
              (λ g _. checked-Every g (protos fs) (protos-EveryInner fs hs))))

  undump-Gives : (s : Bytes) → Yields (Every c) (undump c s)
  unfolding undump
  undump-Gives s =
      (Gives-bind Any (Every c) (load_block 12) _ (Gives-Any (load_block 12)) (λ h _.
          Gives-bind Any (Every c) (check_header c h) _ (Gives-Any (check_header c h))
            (λ _ _. load_function-Every (suc (length s)) (some (codes "=?"))))).at
        s

-- When `luaU_undump` loads a chunk, `luaG_checkcode` has accepted the function and all functions that
-- are nested inside it, at any depth.
pub undump-Every :
    (s : Bytes) {g : Proto} {r : Bytes} → undump accepts s ≡ loaded g r → Every accepts g
undump-Every s {g} h = rw h at (undump-Gives accepts s)
