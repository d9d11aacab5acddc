-- ===== src/Lua/Stream/Read.antt =====
-- Reading from a stream is reading from all the bytes that its reader has left (open-ldb/lzio.c,
-- open-ldb/lundump.c).
use lua_eclipse_ide.Base.{
  ℕ, zero, suc, ◌+◌, ◌-◌, ◌<◌, ◌≤◌, false, List, [], ◌∷◌, ◌++◌, append-nil, append_assoc, Bytes,
  none, some, length, take, drop, ◌==◌, ==_iff, Bool-cases, inl, inr, ◌≡◌, refl, sym, ap, ◌∙◌,
  arith,
}
use lua_eclipse_ide.Lua.Stream.{Zio, fill, lookahead, part_size, ReadState, read_part, read_loop}

-- What the reader gives up to the first empty block, at which the stream ends.
abbrev pub contents : List Bytes → Bytes
contents [] = []
contents ([] ∷ rest) = []
contents ((c ∷ b) ∷ rest) = (c ∷ b) ++ contents rest

abbrev pub stream : Zio → Bytes
stream z = z.unread ++ contents z.blocks

sub_zero : (n : ℕ) → n - 0 ≡ n
sub_zero n = omega arith

sub_suc : (n m : ℕ) → suc n - suc m ≡ n - m
sub_suc n m = omega arith

module _ {ℓ} {A : Type ℓ} where
  -- A part of `m` elements that is taken from the front, and the rest.
  take-parts :
      (m n : ℕ) (u c : List A)
      → m ≤ length u
      → m ≤ n
      → take n (u ++ c) ≡ take m u ++ take (n - m) (drop m u ++ c)
  take-parts zero n u c h k = rw (sub_zero n)
  take-parts (suc m) zero u c h k = absurd (omega arith)
  take-parts (suc m) (suc n) [] c h k = absurd (omega arith)
  take-parts (suc m) (suc n) (x ∷ u) c h k =
      rw (sub_suc n m) (ap (λ t. x ∷ t) (take-parts m n u c (omega arith) (omega arith)))

  drop-parts :
      (m n : ℕ) (u c : List A)
      → m ≤ length u
      → m ≤ n
      → drop n (u ++ c) ≡ drop (n - m) (drop m u ++ c)
  drop-parts zero n u c h k = rw (sub_zero n)
  drop-parts (suc m) zero u c h k = absurd (omega arith)
  drop-parts (suc m) (suc n) [] c h k = absurd (omega arith)
  drop-parts (suc m) (suc n) (x ∷ u) c h k =
      rw (sub_suc n m) (drop-parts m n u c (omega arith) (omega arith))

  length-parts :
      (m : ℕ) (u c : List A) → m ≤ length u → length (drop m u ++ c) + m ≡ length (u ++ c)
  length-parts zero u c h = omega arith
  length-parts (suc m) [] c h = absurd (omega arith)
  length-parts (suc m) (x ∷ u) c h = omega (arith, length-parts m u c (omega arith))

length_zero {ℓ} : {A : Type ℓ} (xs : List A) → length xs ≡ 0 → xs ≡ []
length_zero [] h = refl
length_zero (x ∷ xs) h = absurd (omega (arith, h))

take_nil {ℓ} : {A : Type ℓ} (n : ℕ) → take {A = A} n [] ≡ []
take_nil zero = refl
take_nil (suc n) = refl

positive : (n : ℕ) → (n == 0) ≡ false → 0 < n
positive n h = ground arith

less : (n m k : ℕ) → 0 < m → n ≤ suc k → n - m ≤ k
less n m k h e = omega arith

no_room : (n l : ℕ) → 0 < n → l ≡ 0 → n ≤ l → ⊥
no_room n l h e k = omega arith

abbrev zio : Bytes → List Bytes → Zio
zio u blocks = record { unread = u; blocks = blocks }

-- At the end there is no byte to look at.
lookahead_end :
    (u : Bytes) (blocks : List Bytes)
    → stream (zio u blocks) ≡ []
    → (lookahead (zio u blocks)).0 ≡ none
unfolding lookahead fill
lookahead_end [] [] h = refl
lookahead_end [] ([] ∷ rest) h = refl
lookahead_end [] ((c ∷ b) ∷ rest) h = cc
lookahead_end (c ∷ u) blocks h = cc

-- There is a byte to look at, in the same stream.
record Looked (z : Zio) : Type 0 where
  byte : ℕ
  found : (lookahead z).0 ≡ some byte
  same : stream (lookahead z).1 ≡ stream z
  unread : 0 < length (lookahead z).1.unread

lookahead-Looked :
    (u : Bytes) (blocks : List Bytes) → 0 < length (stream (zio u blocks)) → Looked (zio u blocks)
unfolding lookahead fill
lookahead-Looked [] [] h = absurd (omega arith)
lookahead-Looked [] ([] ∷ rest) h = absurd (omega arith)
lookahead-Looked [] ((c ∷ b) ∷ rest) h = record {
  byte = c;
  found = refl;
  same = refl;
  unread = omega arith;
}
lookahead-Looked (c ∷ u) blocks h = record {
  byte = c;
  found = refl;
  same = refl;
  unread = omega arith;
}

part_size_le : (n : ℕ) (z : Zio) → part_size n z ≤ n
part_size_le n z = ground arith

part_size_unread : (n : ℕ) (z : Zio) → part_size n z ≤ length z.unread
part_size_unread n z = ground arith

part_size_positive : (n : ℕ) (z : Zio) → 0 < n → 0 < length z.unread → 0 < part_size n z
part_size_positive n z h k = ground arith

-- What the loop leaves: the bytes that there are, as many as are missing, and the rest.
pub record Filled (s t : ReadState) : Type 0 where
  pub bytes : t.b ≡ s.b ++ take s.missing (stream s.zio)
  pub left : t.missing ≡ s.missing - length (stream s.zio)
  pub rest : s.missing ≤ length (stream s.zio) → stream t.zio ≡ drop s.missing (stream s.zio)

abbrev pub state : Bytes → ℕ → Zio → ReadState
state b n z = record { b = b; missing = n; zio = z }

Filled-part :
    (s : ReadState) (z : Zio) (t : ReadState)
    → stream z ≡ stream s.zio
    → Filled (read_part s z) t
    → Filled s t
Filled-part s z t same f =
    let m = part_size s.missing z in
    let le = part_size_le s.missing z in
    let short = part_size_unread s.missing z in
    record {
      bytes =
          f.bytes
          ∙ append_assoc s.b (take m z.unread) _
          ∙ ap (λ x. s.b ++ x)
              (sym (take-parts m s.missing z.unread (contents z.blocks) short le)
                ∙ ap (take s.missing) same);
      left =
          omega (arith, f.left, length-parts m z.unread (contents z.blocks) short, ap length same);
      rest = λ h.
          f.rest (omega (arith, length-parts m z.unread (contents z.blocks) short, ap length same))
          ∙ sym (drop-parts m s.missing z.unread (contents z.blocks) short le)
          ∙ ap (drop s.missing) same;
    }

Filled-none : (s : ReadState) → s.missing ≡ 0 → Filled s s
Filled-none s h = record {
  bytes = rw h (sym (append-nil s.b));
  left = omega (arith, h);
  rest = λ _. rw h refl;
}

Filled-end :
    (s : ReadState) (z : Zio) → 0 < s.missing → stream s.zio ≡ [] → Filled s (record s { zio = z })
Filled-end s z h over = record {
  bytes = rw over (sym (ap (λ x. s.b ++ x) (take_nil s.missing) ∙ append-nil s.b));
  left = rw over (omega arith);
  rest = λ k. absurd (no_room s.missing _ h (ap length over) k);
}

pub read_loop-Filled : (k : ℕ) (s : ReadState) → s.missing ≤ k → Filled s (read_loop k s)
unfolding read_loop
read_loop-Filled zero s h = Filled-none s (omega arith)
read_loop-Filled (suc k) s h = elim (Bool-cases (s.missing == 0)) [
  | inl e ↦ rw (read_loop, e) (Filled-none s ((==_iff s.missing 0).0 e))
  | inr e ↦ elim (Bool-cases (length (stream s.zio) == 0)) [
    | inl empty ↦
        let over = length_zero (stream s.zio) ((==_iff _ 0).0 empty) in
        let eoz = lookahead_end s.zio.unread s.zio.blocks over in
        rw (read_loop, e, eoz) (Filled-end s (lookahead s.zio).1 (positive s.missing e) over)
    | inr some_left ↦
        let l = lookahead-Looked s.zio.unread s.zio.blocks (positive _ some_left) in
        rw (read_loop, e, l.found)
          (Filled-part s (lookahead s.zio).1 _ l.same (
            read_loop-Filled k (read_part s (lookahead s.zio).1) (
              less s.missing _ k
                (part_size_positive s.missing (lookahead s.zio).1 (positive s.missing e) l.unread)
                h)))
  ]
]
