-- ===== src/Lua/Stream/Refines.antt =====
-- A load from a stream refines a load from bytes (open-ldb/lzio.c, open-ldb/lundump.c).
use lua_eclipse_ide.Base.{
  ℕ, zero, suc, ◌-◌, ◌<◌, ◌≤◌, true, false, [], ◌∷◌, Bytes, Option, none, some, length, take, drop,
  ◌==◌, ==_iff, Bool-cases, inl, inr, ◌≡◌, refl, sym, ap, ap₂, ◌∙◌, arith,
}
use lua_eclipse_ide.Lua.Chunk.Load.{
  Loaded, loaded, failed, unexpected_end, load_times, load_byte, pure,
}
use lua_eclipse_ide.Lua.Chunk.Load
use lua_eclipse_ide.Lua.Stream.{
  Zio, read_loop, read, Block, refused, block, load_from_zio, Caller, done, ask, run_calls,
}
use lua_eclipse_ide.Lua.Stream.Read.{stream, state, read_loop-Filled}

abbrev and_then {ℓ κ} : {A : Type ℓ} {B : Type κ} → (A → Load.Loader B) → Loaded A → Loaded B
and_then k (loaded a r) = k a r
and_then k (failed e) = failed e

-- The loader of chunks takes a block of bytes, or ends.
times_next :
    (n c : ℕ) (s : Bytes)
    → load_times (suc n) load_byte (c ∷ s)
      ≡ and_then (λ b. loaded (c ∷ b)) (load_times n load_byte s)
unfolding load_times load_byte pure Load.◌>>=◌
times_next n c s = refl

times_enough :
    (n : ℕ) (s : Bytes) → n ≤ length s → load_times n load_byte s ≡ loaded (take n s) (drop n s)
unfolding load_times load_byte pure
times_enough zero s h = refl
times_enough (suc n) [] h = absurd (omega arith)
times_enough (suc n) (c ∷ s) h =
    times_next n c s ∙ ap (and_then (λ b. loaded (c ∷ b))) (times_enough n s (omega arith))

times_short : (n : ℕ) (s : Bytes) → length s < n → load_times n load_byte s ≡ failed unexpected_end
unfolding load_times load_byte pure Load.◌>>=◌
times_short zero s h = absurd (omega arith)
times_short (suc n) [] h = refl
times_short (suc n) (c ∷ s) h =
    times_next n c s ∙ ap (and_then (λ b. loaded (c ∷ b))) (times_short n s (omega arith))

abbrev forget_block : Block → Loaded Bytes
forget_block refused = failed unexpected_end
forget_block (block b z) = loaded b (stream z)

none_missing : (n m l : ℕ) → m ≡ n - l → (m == 0) ≡ true → n ≤ l
none_missing n m l h k = omega (arith, h, (==_iff m 0).0 k)

some_missing : (n m l : ℕ) → m ≡ n - l → (m == 0) ≡ false → l < n
some_missing n m l h k = ground arith

load_from_zio-stream :
    (n : ℕ) (z : Zio) → forget_block (load_from_zio n z) ≡ Load.load_block n (stream z)
unfolding read Load.load_block
load_from_zio-stream n z =
    let t = read_loop n (state [] n z) in
    let f = read_loop-Filled n (state [] n z) (omega arith) in
    elim (Bool-cases (t.missing == 0)) [
      | inl e ↦
          let fits = none_missing n t.missing (length (stream z)) f.left e in
          rw e (ap₂ loaded f.bytes (f.rest fits) ∙ sym (times_enough n (stream z) fits))
      | inr e ↦ rw e (sym (times_short n (stream z) (some_missing n t.missing _ f.left e)))
    ]

abbrev pub forget {ℓ} : {A : Type ℓ} → Option (A × Zio) → Loaded A
forget none = failed unexpected_end
forget (some (a, z)) = loaded a (stream z)

-- The calls of a caller on all the bytes at once.
unfoldable pub run_bytes {ℓ} : {A : Type ℓ} → Caller A → Load.Loader A
run_bytes (done a) = pure a
run_bytes (ask n k) = Load.◌>>=◌ (Load.load_block n) (λ b. run_bytes (k b))

-- One call: what follows it is the same if that holds for each block.
ask-stream {ℓ} :
    {A : Type ℓ} (k : Bytes → Caller A) (b : Block)
    → ((a : Bytes) (z : Zio) → forget (run_calls (k a) z) ≡ run_bytes (k a) (stream z))
    → forget (elim b [ refused ↦ none | block a z ↦ run_calls (k a) z ])
      ≡ and_then (λ a. run_bytes (k a)) (forget_block b)
ask-stream k refused h = refl
ask-stream k (block a z) h = h a z

-- Whatever a caller asks of `LoadBlock`, one call after another, it gets from a stream, in however
-- many blocks its reader gives it, what it gets from the bytes of the stream in one piece, which end
-- at the first empty block: the same blocks, the same end of the load where bytes are missing, and the
-- same bytes left.
pub run_calls-stream {ℓ} :
    {A : Type ℓ} (c : Caller A) (z : Zio) → forget (run_calls c z) ≡ run_bytes c (stream z)
unfolding run_calls run_bytes pure Load.◌>>=◌
run_calls-stream (done a) z = refl
run_calls-stream (ask n k) z =
    ask-stream k (load_from_zio n z) (λ a z'. run_calls-stream (k a) z')
    ∙ ap (and_then (λ a. run_bytes (k a))) (load_from_zio-stream n z)
