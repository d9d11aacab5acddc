-- ===== src/Lua/Chunk/Parts.antt =====
-- The loaders of open-ldb/lundump.c read back each part of the format.
use lua_eclipse_ide.Base.{
  ℕ, zero, suc, ◌<◌, List, [], ◌∷◌, ◌++◌, ◌≡◌, refl, append_assoc, ap, sym, Bytes, Option, none,
  some, length, take, length-append, ℤ, pos, pos_part, negsuc, arith,
}
use lua_eclipse_ide.Lua.Words.{
  word, word_value, to_word, from_word, int_values, capacity, IsInt, IsCount, IsChar, length-word,
  word_value-word, from_word-to_word, from_word-to_word_char, to_word-below,
}
use lua_eclipse_ide.Lua.Chunk.{
  LocVar, Constant, nil_constant, boolean_constant, number_constant, string_constant,
}
use lua_eclipse_ide.Lua.Chunk.Dump.{int_word, concat_map}
use lua_eclipse_ide.Lua.Chunk.Format.{char_text, string_text, constant_text, locvar_text, list_text}
use lua_eclipse_ide.Lua.Chunk.Load.{
  loaded, Loader, ◌>>=◌, pure, load_byte, load_times, load_block, load_char, load_word,
  load_any_int, load_int, load_number, load_sized, load_string, load_list, load_constant,
  load_locvar,
}
use lua_eclipse_ide.Lua.Chunk.Fits.{All, ListFits, StringFits, ConstantFits, LocVarFits, max_count}

-- `m` reads `text` as the value `x`, and leaves what follows.
pub record Reads {ℓ} {A : Type ℓ} (m : Loader A) (text : Bytes) (x : A) : Type ℓ where
  pub at : (rest : Bytes) → m (text ++ rest) ≡ loaded x rest

pub Reads-bind {ℓ κ} :
    {A : Type ℓ} {B : Type κ} {m : Loader A} {s t : Bytes} {x : A} {y : B} (f : A → Loader B)
    → Reads m s x
    → Reads (f x) t y
    → Reads (m >>= f) (s ++ t) y
unfolding ◌>>=◌
Reads-bind {s = s} {t = t} f h k = record {
  at = λ rest. rw (append_assoc s t rest, h.at (t ++ rest), ◌>>=◌) (k.at rest);
}

pub Reads-map {ℓ κ} :
    {A : Type ℓ} {B : Type κ} {m : Loader A} {s : Bytes} {x : A} (g : A → B)
    → Reads m s x
    → Reads (m >>= λ a. pure (g a)) s (g x)
unfolding ◌>>=◌ pure
Reads-map g h = record { at = λ rest. rw (h.at rest, ◌>>=◌) }

-- A last step that takes nothing.
pub Reads-last {ℓ κ} :
    {A : Type ℓ} {B : Type κ} {m : Loader A} {s : Bytes} {x : A} {y : B} (f : A → Loader B)
    → Reads m s x
    → ((rest : Bytes) → f x rest ≡ loaded y rest)
    → Reads (m >>= f) s y
unfolding ◌>>=◌
Reads-last f h k = record { at = λ rest. rw (h.at rest, ◌>>=◌) (k rest) }

pub Reads-value {ℓ} :
    {A : Type ℓ} {m : Loader A} {s : Bytes} {x y : A} → Reads m s x → x ≡ y → Reads m s y
Reads-value h e = rw (sym e) h

pub load_byte-Reads : (n : ℕ) → n < 256 → Reads load_byte (char_text (pos n)) n
unfolding load_byte
load_byte-Reads n h = record { at = λ rest. ap (λ b. loaded b rest) (omega arith) }

load_any_byte-Reads : (b : ℕ) → Reads load_byte (b ∷ []) b
unfolding load_byte
load_any_byte-Reads b = record { at = λ rest. refl }

pub load_block-Reads : (n : ℕ) (s : Bytes) → length s ≡ n → Reads (load_block n) s s
unfolding load_block load_times pure
load_block-Reads zero [] h = record { at = λ rest. refl }
load_block-Reads zero (b ∷ s) h = absurd (omega arith)
load_block-Reads (suc n) [] h = absurd (omega arith)
load_block-Reads (suc n) (b ∷ s) h =
    Reads-bind _ (load_any_byte-Reads b)
      (Reads-map (λ xs. b ∷ xs) (load_block-Reads n s (omega arith)))

pub load_char-Reads : (y : ℤ) → IsChar y → Reads load_char (char_text y) y
unfolding load_char
load_char-Reads y h =
    Reads-value (Reads-map (from_word 256) (load_any_byte-Reads (to_word 256 y)))
      (from_word-to_word_char y h)

pub load_word-Reads : (w n : ℕ) → n < capacity w → Reads (load_word w) (word w n) n
unfolding load_word
load_word-Reads w n h =
    Reads-value (Reads-map word_value (load_block-Reads w (word w n) (length-word w n)))
      (word_value-word w n h)

pub load_any_int-Reads : (x : ℤ) → IsInt x → Reads load_any_int (int_word x) x
unfolding load_any_int
load_any_int-Reads x h =
    Reads-value
      (Reads-map (from_word int_values)
        (load_word-Reads 4 (to_word int_values x) (to_word-below x)))
      (from_word-to_word x h)

pub load_int-Reads : (n : ℕ) → n < max_count → Reads load_int (int_word (pos n)) n
unfolding load_int pure
load_int-Reads n h = Reads-last _ (load_any_int-Reads (pos n) h) λ rest. refl

pub pos-pos_part : (x : ℤ) → IsCount x → pos (pos_part x) ≡ x
pos-pos_part (pos n) h = refl
pos-pos_part (negsuc n) h = absurd (omega arith)

-- Only an `int` that is not negative is read.
pub load_count-Reads : (x : ℤ) → IsCount x → Reads load_int (int_word x) (pos_part x)
load_count-Reads (pos n) h = load_int-Reads n h
load_count-Reads (negsuc n) h = absurd (omega arith)

take_front : (s : Bytes) (x : ℕ) → take (length s) (s ++ x ∷ []) ≡ s
take_front [] x = refl
take_front (b ∷ s) x = rw (take_front s x)

load_sized-Reads :
    (s : Bytes) (n : ℕ) → length s ≡ n → Reads (load_sized (suc n)) (s ++ 0 ∷ []) (some s)
load_sized-Reads s n h =
    Reads-value
      (Reads-map (λ b. some (take n b))
        (load_block-Reads (suc n) (s ++ 0 ∷ []) (omega (arith, length-append s (0 ∷ []), h))))
      (rw (sym h) (ap some (take_front s 0)))

pub load_string-Reads : (s : Option Bytes) → StringFits s → Reads load_string (string_text s) s
unfolding load_string string_text pure
load_string-Reads none h = Reads-last _ (load_word-Reads 8 0 (omega arith)) λ rest. refl
load_string-Reads (some s) h =
    Reads-bind _ (load_word-Reads 8 (suc (length s)) h) (load_sized-Reads s (length s) refl)

pub load_times-Reads {ℓ} :
    {A : Type ℓ} (m : Loader A) (text : A → Bytes) (xs : List A) {P : A → Type 0}
    → ((x : A) → P x → Reads m (text x) x)
    → All P xs
    → Reads (load_times (length xs) m) (concat_map text xs) xs
unfolding load_times pure
load_times-Reads m text [] h all = record { at = λ rest. refl }
load_times-Reads m text (x ∷ xs) h (px, all) =
    Reads-bind _ (h x px) (Reads-map (λ ys. x ∷ ys) (load_times-Reads m text xs h all))

pub load_list-Reads {ℓ} :
    {A : Type ℓ} (m : Loader A) (text : A → Bytes) (xs : List A) {P : A → Type 0}
    → ((x : A) → P x → Reads m (text x) x)
    → ListFits P xs
    → Reads (load_list m) (list_text text xs) xs
unfolding load_list
load_list-Reads m text xs h (few, all) =
    Reads-bind _ (load_int-Reads (length xs) few) (load_times-Reads m text xs h all)

pub load_constant-Reads : (c : Constant) → ConstantFits c → Reads load_constant (constant_text c) c
unfolding load_constant constant_text load_number pure
load_constant-Reads nil_constant h =
    Reads-last _ (load_char-Reads (pos 0) (omega arith)) λ rest. refl
load_constant-Reads (boolean_constant b) h =
    Reads-bind _ (load_char-Reads (pos 1) (omega arith))
      (Reads-map boolean_constant (load_char-Reads b h))
load_constant-Reads (number_constant n) h =
    Reads-bind _ (load_char-Reads (pos 3) (omega arith))
      (Reads-map number_constant (load_block-Reads 8 n h))
load_constant-Reads (string_constant s) h =
    Reads-bind _ (load_char-Reads (pos 4) (omega arith))
      (Reads-map string_constant (load_string-Reads s h))

pub load_locvar-Reads : (v : LocVar) → LocVarFits v → Reads load_locvar (locvar_text v) v
unfolding load_locvar locvar_text pure
load_locvar-Reads v h = Reads-bind _ (load_string-Reads v.varname h.varname) (
    Reads-bind _ (load_count-Reads v.startpc h.startpc) (
      Reads-last _ (load_count-Reads v.endpc h.endpc)
        λ rest. rw (pos-pos_part v.startpc h.startpc, pos-pos_part v.endpc h.endpc)))
