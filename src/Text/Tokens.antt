-- ===== src/Text/Tokens.antt =====
-- The words of a command line.
use lua_eclipse_ide.Base.{
  ℕ, true, false, ◌||◌, none, ◌==◌, some, [], ◌∷◌, ◌++◌, Bytes, ◌≡◌, ◌≢◌, refl, arith,
}
use lua_eclipse_ide.Text.{starts_with, cut_at, contains, strtok, word, after_word}

word-append : (w rest : Bytes) → contains b' ' w ≡ false → word (w ++ b' ' ∷ rest) ≡ w
unfolding word contains
word-append [] rest h = refl
word-append (c ∷ w) rest h = ground (arith, word-append w rest)

after_word-append :
    (w rest : Bytes) → contains b' ' w ≡ false → after_word (w ++ b' ' ∷ rest) ≡ rest
unfolding after_word contains
after_word-append [] rest h = refl
after_word-append (c ∷ w) rest h = ground (arith, after_word-append w rest)

word_only : (w : Bytes) → contains b' ' w ≡ false → word w ≡ w
unfolding word contains
word_only [] h = refl
word_only (c ∷ w) h = ground (arith, word_only w)

after_word_only : (w : Bytes) → contains b' ' w ≡ false → after_word w ≡ []
unfolding after_word contains
after_word_only [] h = refl
after_word_only (c ∷ w) h = ground (arith, after_word_only w)

-- The first word of a line, and the rest behind the blank that ends it.
pub strtok-append :
    (w rest : Bytes) → w ≢ [] → contains b' ' w ≡ false → strtok (w ++ b' ' ∷ rest) ≡ some (w, rest)
unfolding strtok contains
strtok-append [] rest ne h = absurd (ne refl)
strtok-append (c ∷ w) rest ne h =
    ground (arith, word-append (c ∷ w) rest h, after_word-append (c ∷ w) rest h)

pub strtok_only : (w : Bytes) → w ≢ [] → contains b' ' w ≡ false → strtok w ≡ some (w, [])
unfolding strtok contains
strtok_only [] ne h = absurd (ne refl)
strtok_only (c ∷ w) ne h = ground (arith, word_only (c ∷ w) h, after_word_only (c ∷ w) h)

pub cut_at_without : (c : ℕ) (s : Bytes) → contains c s ≡ false → cut_at c s ≡ s
unfolding cut_at contains
cut_at_without c [] h = refl
cut_at_without c (d ∷ s) h = ground (arith, cut_at_without c s)

pub cut_at-append : (c : ℕ) (s rest : Bytes) → contains c s ≡ false → cut_at c (s ++ c ∷ rest) ≡ s
unfolding cut_at contains
cut_at-append c [] rest h = ground arith
cut_at-append c (d ∷ s) rest h = ground (arith, cut_at-append c s rest)

pub contains-append : (c : ℕ) (a b : Bytes) → contains c (a ++ b) ≡ (contains c a || contains c b)
unfolding contains
contains-append c [] b = refl
contains-append c (d ∷ a) b = ground (arith, contains-append c a b)

pub starts_with-append : (p s : Bytes) → starts_with p (p ++ s) ≡ true
unfolding starts_with
starts_with-append [] s = refl
starts_with-append (c ∷ p) s = ground (arith, starts_with-append p s)

-- Every byte is a blank.
abbrev pub AllBlank : Bytes → Type 0
AllBlank [] = Unit {0}
AllBlank (c ∷ s) = (c ≡ b' ') × AllBlank s

-- There is no word in a text of blanks.
pub strtok-AllBlank : (s : Bytes) → AllBlank s → strtok s ≡ none
unfolding strtok
strtok-AllBlank [] h = refl
strtok-AllBlank (c ∷ s) h = ground (arith, strtok-AllBlank s h.1)

pub contains-AllBlank :
    (c : ℕ) (s : Bytes) → (b' ' == c) ≡ false → AllBlank s → contains c s ≡ false
unfolding contains
contains-AllBlank c [] e h = refl
contains-AllBlank c (d ∷ s) e h = ground (arith, contains-AllBlank c s e h.1)
