-- ===== src/Command/Spelling.antt =====
-- Which spellings run which command.
use lua_eclipse_ide.Base.{
  Bytes, codes, Bool, true, false, ◌||◌, if◌then◌else◌, ◌≡◌, ◌≢◌, ap₂, ◌⊎◌, inl, inr, Bool-cases,
  ◌++◌, [], ◌∷◌, refl, arith,
}
use lua_eclipse_ide.Text.{starts_with}
use lua_eclipse_ide.Command.{
  Command, get_globals, data_for_ide, var_for_ide, stack_for_ide, suspend, list, set_break,
  clear_break, display, assign, step, continue, print, quit, help, unknown, classify,
}

-- The name of a command as the help text and the environment spell it.
abbrev pub shortest : Command → Bytes
shortest get_globals = codes "getglobals"
shortest data_for_ide = codes "data"
shortest var_for_ide = codes "var"
shortest stack_for_ide = codes "sta"
shortest suspend = codes "su"
shortest list = codes "l"
shortest set_break = codes "b"
shortest clear_break = codes "cl"
shortest display = codes "d"
shortest assign = codes "a"
shortest step = codes "ste"
shortest continue = codes "co"
shortest print = codes "p"
shortest quit = codes "q"
shortest help = codes "help"
shortest unknown = []

-- `display` gives way to `data`, and `resume` is another word for `continue`.
pub data Spells : Command → Bytes → Type 0 where
  by_prefix :
      {s : Bytes} (c : Command) (rest : Bytes)
      → c ≢ unknown
      → c ≢ display
      → s ≡ shortest c ++ rest
      → Spells c s
  as_display :
      {s : Bytes} (rest : Bytes)
      → s ≡ codes "d" ++ rest
      → starts_with (codes "ata") rest ≡ false
      → Spells display s
  as_resume : {s : Bytes} (rest : Bytes) → s ≡ codes "resume" ++ rest → Spells continue s

classify-shortest :
    (c : Command) (rest : Bytes) → c ≢ unknown → c ≢ display → classify (shortest c ++ rest) ≡ c
unfolding classify
classify-shortest get_globals rest u d = refl
classify-shortest unknown rest u d = absurd (u refl)
classify-shortest display rest u d = absurd (d refl)
classify-shortest _ rest u d = refl

-- A word that spells a command runs it, whatever follows the letters that are needed.
pub classify-Spells : {c : Command} {s : Bytes} → Spells c s → classify s ≡ c
classify-Spells (by_prefix c rest u d e) = rw e (classify-shortest c rest u d)
classify-Spells (as_display rest e h) = rw e (unfold classify in rw h)
classify-Spells (as_resume rest e) = rw e (unfold classify in refl)

starts_with_split : (p s : Bytes) → starts_with p s ≡ true → (rest : Bytes) × (s ≡ p ++ rest)
unfolding starts_with
starts_with_split [] s h = (s, refl)
starts_with_split (c ∷ p) [] h = cc
starts_with_split (c ∷ p) (d ∷ s) h =
    let (rest, e) = starts_with_split p s (ground arith) in
    let same : d ≡ c = ground arith in (rest, ap₂ ◌∷◌ same e)

-- What the chain may answer: no command, or one that the word spells.
abbrev Answer : Bytes → Command → Type 0
Answer s c = (c ≡ unknown) ⊎ Spells c s

choose :
    (s : Bytes) (b : Bool) {c d : Command}
    → (b ≡ true → Answer s c)
    → (b ≡ false → Answer s d)
    → Answer s (if b then c else d)
choose s true f g = f refl
choose s false f g = g refl

spelled :
    (s : Bytes) (c : Command)
    → c ≢ unknown
    → c ≢ display
    → starts_with (shortest c) s ≡ true
    → Answer s c
spelled s c u d h =
    let (rest, e) = starts_with_split (shortest c) s h in inr (by_prefix c rest u d e)

-- A test on the chain that names the command it runs.
test :
    (s : Bytes) (c : Command) {d : Command}
    → c ≢ unknown
    → c ≢ display
    → Answer s d
    → Answer s (if starts_with (shortest c) s then c else d)
test s c u d later = choose s (starts_with (shortest c) s) (spelled s c u d) (λ _. later)

starts_with_d :
    (s : Bytes)
    → starts_with (codes "data") s ≡ false
    → starts_with (codes "d") s ≡ true
    → Spells display s
unfolding starts_with
starts_with_d [] no_data h = cc
starts_with_d (c ∷ rest) no_data h = as_display rest (ground arith) (ground arith)

continues :
    (s : Bytes)
    → (starts_with (codes "co") s || starts_with (codes "resume") s) ≡ true
    → Answer s continue
continues s h = elim (Bool-cases (starts_with (codes "co") s)) [
  | inl short ↦ spelled s continue (ground arith) (ground arith) short
  | inr other ↦
      let (rest, e) = starts_with_split (codes "resume") s (ground arith) in inr (as_resume rest e)
]

from_step : Bytes → Command
from_step s =
    if starts_with (codes "ste") s
    then step
    else if starts_with (codes "co") s || starts_with (codes "resume") s
    then continue
    else if starts_with (codes "p") s
    then print
    else if starts_with (codes "q") s
    then quit
    else if starts_with (codes "help") s
    then help
    else unknown

from_step-Answer : (s : Bytes) → Answer s (from_step s)
unfolding from_step
from_step-Answer s = test s step (ground arith) (ground arith) (
    choose s _ (continues s) (λ _. test s print (ground arith) (ground arith) (
      test s quit (ground arith) (ground arith)
        (test s help (ground arith) (ground arith) (inl refl)))))

classify-Answer : (s : Bytes) → Answer s (classify s)
unfolding from_step
classify-Answer s =
    unfold classify in
    test s get_globals (ground arith) (ground arith) (
      choose s _ (spelled s data_for_ide (ground arith) (ground arith)) λ no_data.
        test s var_for_ide (ground arith) (ground arith) (
          test s stack_for_ide (ground arith) (ground arith) (
            test s suspend (ground arith) (ground arith) (
              test s list (ground arith) (ground arith) (
                test s set_break (ground arith) (ground arith) (
                  test s clear_break (ground arith) (ground arith) (
                    choose s _ (λ h. inr (starts_with_d s no_data h))
                      (λ _. test s assign (ground arith) (ground arith) (from_step-Answer s)))))))))

-- A command that the chain finds is one that the word spells.
pub Spells-classify : (s : Bytes) → classify s ≢ unknown → Spells (classify s) s
Spells-classify s h = elim (classify-Answer s) [ inl e ↦ absurd (h e) | inr p ↦ p ]
