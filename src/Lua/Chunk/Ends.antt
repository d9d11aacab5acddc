-- ===== src/Lua/Chunk/Ends.antt =====
-- Loading a chunk ends (open-ldb/lundump.c): a function takes bytes before it loads the functions
-- inside it, so that a chunk of n bytes never nests deeper than n.
use lua_eclipse_ide.Base.{
  ℕ, zero, suc, ◌<◌, ◌≤◌, true, false, [], ◌∷◌, ◌≢◌, Bytes, Option, none, some, length, ℤ, pos,
  negsuc, if◌then◌else◌, arith, eq_bytes, codes,
}
use lua_eclipse_ide.Lua.Chunk.{ProtoFields, Proto, proto, header}
use lua_eclipse_ide.Lua.Chunk.Load.{
  LoadError, unexpected_end, bad_integer, bad_constant, bad_code, bad_header, unfinished,
  stray_read, Verdict, accepted, refused, out_of_bounds, after_check, Loaded, loaded, failed,
  Loader, ◌>>=◌, pure, fail, load_byte, load_times, load_block, load_char, load_word, load_any_int,
  check_int, load_int, load_number, load_sized, load_string, load_list, load_code, load_constant_of,
  load_constant, load_locvar, load_fields, load_debug, load_function, protos, checked, check_header,
  undump,
}

abbrev IsReal : LoadError → Type 0
IsReal unfinished = 1 < 0
IsReal _ = Unit {0}

-- The result leaves at most `n` bytes, or is an error of the source.
abbrev Leaves {ℓ} : {A : Type ℓ} → ℕ → Loaded A → Type 0
Leaves n (loaded a r) = length r ≤ n
Leaves n (failed e) = IsReal e

-- It takes at least one of the `n` bytes.
abbrev LeavesFewer {ℓ} : {A : Type ℓ} → ℕ → Loaded A → Type 0
LeavesFewer n (loaded a r) = length r < n
LeavesFewer n (failed e) = IsReal e

-- On at most `k` bytes `m` ends, and adds no bytes.
record Ends {ℓ} {A : Type ℓ} (k : ℕ) (m : Loader A) : Type 0 where
  at : (s : Bytes) → length s ≤ k → Leaves (length s) (m s)

-- `m` ends and takes at least one byte.
record Takes {ℓ} {A : Type ℓ} (m : Loader A) : Type 0 where
  at : (s : Bytes) → LeavesFewer (length s) (m s)

Leaves-mono {ℓ} : {A : Type ℓ} (r : Loaded A) (n n' : ℕ) → n ≤ n' → Leaves n r → Leaves n' r
Leaves-mono (loaded a r) n n' h k = omega arith
Leaves-mono (failed e) n n' h k = k

Leaves-fewer {ℓ} : {A : Type ℓ} (r : Loaded A) (n n' : ℕ) → n < n' → Leaves n r → LeavesFewer n' r
Leaves-fewer (loaded a r) n n' h k = omega arith
Leaves-fewer (failed e) n n' h k = k

fewer-Leaves {ℓ} : {A : Type ℓ} (r : Loaded A) (n : ℕ) → LeavesFewer n r → Leaves n r
fewer-Leaves (loaded a r) n h = omega arith
fewer-Leaves (failed e) n h = h

Leaves-bind {ℓ κ} :
    {A : Type ℓ} {B : Type κ} (k n : ℕ) (r : Loaded A) (f : A → Loader B)
    → n ≤ k
    → Leaves n r
    → ((a : A) → Ends k (f a))
    → Leaves n (elim r [ loaded a r ↦ f a r | failed e ↦ failed e ])
Leaves-bind k n (failed e) f h l g = l
Leaves-bind k n (loaded a r) f h l g = Leaves-mono (f a r) (length r) n l ((g a).at r (omega arith))

LeavesFewer-bind {ℓ κ} :
    {A : Type ℓ} {B : Type κ} (n : ℕ) (r : Loaded A) (f : A → Loader B)
    → LeavesFewer n r
    → ((a : A) (j : ℕ) → j < n → Ends j (f a))
    → LeavesFewer n (elim r [ loaded a r ↦ f a r | failed e ↦ failed e ])
LeavesFewer-bind n (failed e) f l g = l
LeavesFewer-bind n (loaded a r) f l g =
    Leaves-fewer (f a r) (length r) n l ((g a (length r) l).at r (omega arith))

module _ {ℓ κ} {A : Type ℓ} {B : Type κ} (m : Loader A) (f : A → Loader B) where
  Ends-bind : (k : ℕ) → Ends k m → ((a : A) → Ends k (f a)) → Ends k (m >>= f)
  unfolding ◌>>=◌
  Ends-bind k h g = record { at = λ s l. Leaves-bind k (length s) (m s) f l (h.at s l) g }

  Takes-bind : Takes m → ((a : A) (k : ℕ) → Ends k (f a)) → Takes (m >>= f)
  unfolding ◌>>=◌
  Takes-bind h g = record { at = λ s. LeavesFewer-bind (length s) (m s) f (h.at s) λ a j l. g a j }

  -- What follows has fewer bytes.
  Ends-Takes : (k : ℕ) → Takes m → ((a : A) (j : ℕ) → j < k → Ends j (f a)) → Ends k (m >>= f)
  unfolding ◌>>=◌
  Ends-Takes k h g = record {
    at = λ s l.
        fewer-Leaves _ (length s)
          (LeavesFewer-bind (length s) (m s) f (h.at s) λ a j l'. g a j (omega arith));
  }

Takes-Ends {ℓ} : {A : Type ℓ} (k : ℕ) (m : Loader A) → Takes m → Ends k m
Takes-Ends k m h = record { at = λ s l. fewer-Leaves (m s) (length s) (h.at s) }

Ends-pure {ℓ} : {A : Type ℓ} (k : ℕ) (a : A) → Ends k (pure a)
unfolding pure
Ends-pure k a = record { at = λ s l. omega arith }

byte-fewer : (s : Bytes) → LeavesFewer (length s) (load_byte s)
unfolding load_byte
byte-fewer [] = tt
byte-fewer (b ∷ s) = omega arith

Takes-byte : Takes load_byte
Takes-byte = record { at = byte-fewer }

Ends-byte : (k : ℕ) → Ends k load_byte
Ends-byte k = Takes-Ends k load_byte Takes-byte

Ends-fail {ℓ} : {A : Type ℓ} (k : ℕ) (e : LoadError) → IsReal e → Ends {A = A} k (fail e)
unfolding fail
Ends-fail k e h = record { at = λ s l. h }

Ends-times {ℓ} : {A : Type ℓ} (k n : ℕ) (m : Loader A) → Ends k m → Ends k (load_times n m)
unfolding load_times
Ends-times k zero m h = Ends-pure k []
Ends-times k (suc n) m h =
    Ends-bind m _ k h λ x. Ends-bind _ _ k (Ends-times k n m h) λ xs. Ends-pure k (x ∷ xs)

ruleset ends_rules = (Ends-bind, Ends-pure, Ends-byte, Ends-times)

Ends-char : (k : ℕ) → Ends k load_char
unfolding load_char
Ends-char k = search ends_rules

Ends-word : (k n : ℕ) → Ends k (load_word n)
unfolding load_word load_block
Ends-word k n = search ends_rules

Ends-any_int : (k : ℕ) → Ends k load_any_int
unfolding load_any_int
Ends-any_int k = search (ends_rules, Ends-word)

Ends-check_int : (k : ℕ) (x : ℤ) → Ends k (check_int x)
Ends-check_int k (pos n) = Ends-pure k n
Ends-check_int k (negsuc n) = Ends-fail k bad_integer tt

Ends-int : (k : ℕ) → Ends k load_int
unfolding load_int
Ends-int k = Ends-bind _ _ k (Ends-any_int k) (Ends-check_int k)

Ends-sized : (k n : ℕ) → Ends k (load_sized n)
unfolding load_block
Ends-sized k zero = Ends-pure k none
Ends-sized k (suc n) = search ends_rules

Ends-string : (k : ℕ) → Ends k load_string
unfolding load_string
Ends-string k = Ends-bind _ _ k (Ends-word k 8) (Ends-sized k)

Takes-times {ℓ} : {A : Type ℓ} (n : ℕ) (m : Loader A) → Takes m → Takes (load_times (suc n) m)
unfolding load_times
Takes-times n m h =
    Takes-bind _ _ h
      λ x k. Ends-bind _ _ k (Ends-times k n m (Takes-Ends k m h)) λ xs. Ends-pure k (x ∷ xs)

Takes-string : Takes load_string
unfolding load_string load_word load_block
Takes-string =
    Takes-bind _ _ (Takes-bind _ _ (Takes-times 7 load_byte Takes-byte) λ b k. Ends-pure k _)
      λ n k. Ends-sized k n

Ends-list {ℓ} : {A : Type ℓ} (k : ℕ) (m : Loader A) → Ends k m → Ends k (load_list m)
unfolding load_list
Ends-list k m h = Ends-bind _ _ k (Ends-int k) λ n. Ends-times k n m h

Ends-constant_of : (k : ℕ) (t : ℤ) → Ends k (load_constant_of t)
unfolding load_number load_block
Ends-constant_of k (pos zero) = search ends_rules
Ends-constant_of k (pos (suc zero)) = search (ends_rules, Ends-char)
Ends-constant_of k (pos (suc (suc zero))) = Ends-fail k bad_constant tt
Ends-constant_of k (pos (suc (suc (suc zero)))) = search ends_rules
Ends-constant_of k (pos (suc (suc (suc (suc zero))))) = search (ends_rules, Ends-string)
Ends-constant_of k (pos (suc (suc (suc (suc (suc n)))))) = Ends-fail k bad_constant tt
Ends-constant_of k (negsuc n) = Ends-fail k bad_constant tt

Ends-constant : (k : ℕ) → Ends k load_constant
unfolding load_constant
Ends-constant k = Ends-bind _ _ k (Ends-char k) (Ends-constant_of k)

Ends-locvar : (k : ℕ) → Ends k load_locvar
unfolding load_locvar
Ends-locvar k = search (ends_rules, Ends-string, Ends-int)

Takes-fields : (q : Option Bytes) → Takes (load_fields q)
unfolding load_fields load_code
Takes-fields q =
    Takes-bind _ _ Takes-string
      λ s k. search (ends_rules, Ends-int, Ends-list, Ends-word, Ends-constant) depth 24

Ends-debug : (k : ℕ) (f : ProtoFields) → Ends k (load_debug f)
unfolding load_debug
Ends-debug k f = search (ends_rules, Ends-list, Ends-any_int, Ends-locvar, Ends-string) depth 12

module _ (check : Proto → Verdict) where
  Ends-checked : (k : ℕ) (f : Proto) → Ends k (checked check f)
  Ends-checked k f = elim (check f) as (λ v. Ends k (after_check v f)) [
    | accepted ↦ Ends-pure k f
    | refused ↦ Ends-fail k bad_code tt
    | out_of_bounds ↦ Ends-fail k stray_read tt
  ]

  Ends-function : (fuel k : ℕ) (q : Option Bytes) → k < fuel → Ends k (load_function check fuel q)
  unfolding load_function
  Ends-function zero k q h = absurd (omega arith)
  Ends-function (suc fuel) k q h = Ends-Takes _ _ k (Takes-fields q) λ f j l.
      Ends-bind _ _ j (Ends-list j _ (Ends-function fuel j f.source (omega arith)))
        λ fs. Ends-bind _ _ j (Ends-debug j f) λ g. Ends-checked j (proto g (protos fs))

  Ends-header : (k : ℕ) (h : Bytes) → Ends k (check_header check h)
  Ends-header k h =
      elim (eq_bytes header h) as (λ b. Ends {0} k (if b then pure tt else fail bad_header)) [
        | true ↦ Ends-pure k tt
        | false ↦ Ends-fail k bad_header tt
      ]

  undump-Leaves : (s : Bytes) → Leaves (length s) (undump check s)
  unfolding undump load_block
  undump-Leaves s =
      (Ends-bind _ _ (length s) (Ends-times (length s) 12 load_byte (Ends-byte (length s))) λ h.
          Ends-bind _ _ (length s) (Ends-header (length s) h)
            λ ok. Ends-function (suc (length s)) (length s) (some (codes "=?")) (omega arith)).at
        s (omega arith)

not-unfinished {ℓ} : {A : Type ℓ} (n : ℕ) (r : Loaded A) → Leaves n r → r ≢ failed unfinished
not-unfinished n (loaded a r) h = λ e. cc
not-unfinished n (failed unfinished) h = absurd (omega arith)
not-unfinished n (failed unexpected_end) h = λ e. cc
not-unfinished n (failed bad_integer) h = λ e. cc
not-unfinished n (failed bad_constant) h = λ e. cc
not-unfinished n (failed bad_code) h = λ e. cc
not-unfinished n (failed bad_header) h = λ e. cc
not-unfinished n (failed stray_read) h = λ e. cc

-- Loading never runs out of fuel: whatever the bytes are, it gives a function or an error.
pub undump_total : (check : Proto → Verdict) (s : Bytes) → undump check s ≢ failed unfinished
undump_total check s = not-unfinished (length s) (undump check s) (undump-Leaves check s)
