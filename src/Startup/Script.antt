-- ===== src/Startup/Script.antt =====
-- How a buffered script is read (`readFileIntoString` of open-ldb/LuaDebugger.cpp). The pointer that
-- the function returns points into a string object that is gone with the call.
use lua_eclipse_ide.Base.{
  ℕ, zero, suc, ◌-◌, ◌≤◌, ◌<◌, Bool, true, false, Option, none, some, [], ◌∷◌, ◌++◌, ◌≡◌, refl, sym,
  ap, ◌∙◌, split_if, length-append, append-nil, append_assoc, Bytes, length, ◌==◌, if◌then◌else◌,
  arith,
}
use lua_eclipse_ide.Text.{cut_at, contains}
use lua_eclipse_ide.LuaView.{c_str}
use lua_eclipse_ide.Fault.{Result, fault, null_pointer, dangling_pointer}

abbrev pub line_size : ℕ
line_size = 1600

-- `fgets(line, n + 1, fp)`: the bytes up to a newline, `n` at most; what is left; and whether the
-- end of the file was met.
unfoldable pub fgets : ℕ → Bytes → Bytes × Bytes × Bool
fgets zero file = ([], file, false)
fgets (suc n) [] = ([], [], true)
fgets (suc n) (c ∷ file) =
    let r = fgets n file in if c == b'\n' then (c ∷ [], file, false) else (c ∷ r.0, r.1, r.2)

-- `while (!feof(fp))`, with fuel.
unfoldable pub read_lines : ℕ → Bytes → Bytes → Bytes
read_lines zero file buffer = buffer
read_lines (suc fuel) file buffer =
    let r = fgets (line_size - 1) file in
    let text = buffer ++ c_str r.0 in
    let rest = read_lines fuel r.1 text in if r.2 then text else rest

-- The null pointer, or a pointer to the text that `buffer` held before it was destroyed.
pub data TextPointer : Type 0 where
  null : TextPointer
  dangling : Bytes → TextPointer

-- `none`: the file could not be opened. Every call of `fgets` but the last takes a byte.
unfoldable pub read_file_into_string : Option Bytes → TextPointer
read_file_into_string none = null
read_file_into_string (some file) = dangling (read_lines (suc (length file)) file [])

-- A read through the pointer is undefined, whatever the file is.
abbrev pub read_through : TextPointer → Result Bytes
read_through null = fault null_pointer
read_through (dangling text) = fault dangling_pointer

fgets-append : (n : ℕ) (file : Bytes) → (fgets n file).0 ++ (fgets n file).1 ≡ file
unfolding fgets
fgets-append zero file = refl
fgets-append (suc n) [] = refl
fgets-append (suc n) (c ∷ file) =
    split_if (λ (r : Bytes × Bytes × Bool). r.0 ++ r.1 ≡ c ∷ file) (c == b'\n')
      (c ∷ [], file, false) (c ∷ (fgets n file).0, (fgets n file).1, (fgets n file).2) (λ e. refl)
      λ e. ap (λ s. c ∷ s) (fgets-append n file)

fgets_at_end : (n : ℕ) (file : Bytes) → (fgets n file).2 ≡ true → (fgets n file).1 ≡ []
unfolding fgets
fgets_at_end zero file = λ h. cc
fgets_at_end (suc n) [] = λ h. refl
fgets_at_end (suc n) (c ∷ file) =
    split_if (λ (r : Bytes × Bytes × Bool). r.2 ≡ true → r.1 ≡ []) (c == b'\n')
      (c ∷ [], file, false) (c ∷ (fgets n file).0, (fgets n file).1, (fgets n file).2) (λ e h. cc)
      λ e h. fgets_at_end n file h

fgets_takes :
    (n : ℕ) (file : Bytes) → (fgets (suc n) file).2 ≡ false → 1 ≤ length (fgets (suc n) file).0
unfolding fgets
fgets_takes n [] = λ h. cc
fgets_takes n (c ∷ file) =
    split_if (λ (r : Bytes × Bytes × Bool). r.2 ≡ false → 1 ≤ length r.0) (c == b'\n')
      (c ∷ [], file, false) (c ∷ (fgets n file).0, (fgets n file).1, (fgets n file).2)
      (λ e h. omega arith) λ e h. omega arith

contains-append_left : (s t : Bytes) → contains 0 (s ++ t) ≡ false → contains 0 s ≡ false
unfolding contains
contains-append_left [] t h = refl
contains-append_left (c ∷ s) t h = ground (arith, contains-append_left s t)

contains-append_right : (s t : Bytes) → contains 0 (s ++ t) ≡ false → contains 0 t ≡ false
unfolding contains
contains-append_right [] t h = h
contains-append_right (c ∷ s) t h = ground (arith, contains-append_right s t)

c_str-lem : (s : Bytes) → contains 0 s ≡ false → c_str s ≡ s
unfolding c_str cut_at contains
c_str-lem [] h = refl
c_str-lem (c ∷ s) h =
    let rest : contains 0 s ≡ false = ground (arith, h) in
    let other : (c == 0) ≡ false = ground (arith, h) in
    rw other (ap (λ t. c ∷ t) (c_str-lem s rest))

read_lines-append :
    (fuel : ℕ) (file buffer : Bytes)
    → length file < fuel
    → contains 0 file ≡ false
    → read_lines fuel file buffer ≡ buffer ++ file
unfolding read_lines
read_lines-append zero file buffer h z = absurd (omega arith)
read_lines-append (suc fuel) file buffer h z =
    let line = (fgets 1599 file).0 in
    let rest = (fgets 1599 file).1 in
    let both : line ++ rest ≡ file = fgets-append 1599 file in
    let no_zero : contains 0 (line ++ rest) ≡ false = rw both z in
    let text : c_str line ≡ line = c_str-lem line (contains-append_left line rest no_zero) in
    let no_zero_rest = contains-append_right line rest no_zero in
    split_if (λ t. t ≡ buffer ++ file) (fgets 1599 file).2 (buffer ++ c_str line)
      (read_lines fuel rest (buffer ++ c_str line))
      (λ e.
        let none_left : rest ≡ [] = fgets_at_end 1599 file e in
        rw text (
          ap (λ s. buffer ++ s)
            (sym (append-nil line) ∙ sym (ap (λ s. line ++ s) none_left) ∙ both)))
      λ e.
        let shorter : length rest < fuel =
          omega (arith, fgets_takes 1598 file e, length-append line rest, ap length both, h) in
        read_lines-append fuel rest (buffer ++ c_str line) shorter no_zero_rest
        ∙ rw text (append_assoc buffer line rest ∙ ap (λ s. buffer ++ s) both)

-- The string object has held a script without zero bytes as it is, whatever the length of its lines,
-- when the function returns the pointer into it.
read_file_into_string_lem :
    (file : Bytes) → contains 0 file ≡ false → read_file_into_string (some file) ≡ dangling file
unfolding read_file_into_string
read_file_into_string_lem file h =
    ap dangling (read_lines-append (suc (length file)) file [] (omega arith) h)
