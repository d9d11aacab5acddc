-- ===== src/Lua/Chunk/RoundTrip.antt =====
-- What open-ldb/ldump.c saves open-ldb/lundump.c loads again.
use lua_eclipse_ide.Base.{
  ℕ, zero, suc, ◌+◌, ◌<◌, ◌≤◌, Bool, true, false, List, [], ◌∷◌, ◌++◌, ◌≡◌, refl, sym, ap, ap₂,
  append-nil, Bytes, Option, none, some, length, length-append, pos, if◌then◌else◌, arith,
  eq_bytes_iff, eq_bytes_refl, codes,
}
use lua_eclipse_ide.Lua.Words.{word, length-word}
use lua_eclipse_ide.Lua.Chunk.{ProtoFields, Proto, Protos, proto, no_protos, add_proto, header}
use lua_eclipse_ide.Lua.Chunk.Dump.{
  same_source, count_protos, unless_stripped, int_word, dump, append_writer,
}
use lua_eclipse_ide.Lua.Chunk.Format.{
  string_text, constant_text, locvar_text, list_text, saved_source, fields_text, debug_text,
  function_text, functions_text,
}
use lua_eclipse_ide.Lua.Chunk.Load.{
  loaded, ◌>>=◌, pure, load_block, load_times, load_list, load_code, load_fields, load_constant,
  load_locvar, load_any_int, load_string, load_word, load_debug, load_function, source_or, protos,
  checked, check_header, undump, Verdict, accepted,
}
use lua_eclipse_ide.Lua.Chunk.Fits.{
  ListFits, StringFits, HasSource, FieldsFit, ProtoFits, ProtosFit, Passes, AllPass, kept_source,
  stripped, all_stripped,
}
use lua_eclipse_ide.Lua.Chunk.Parts.{
  Reads, Reads-bind, Reads-map, Reads-last, load_byte-Reads, load_block-Reads, load_word-Reads,
  load_any_int-Reads, load_count-Reads, pos-pos_part, load_int-Reads, load_string-Reads,
  load_list-Reads, load_constant-Reads, load_locvar-Reads,
}
use lua_eclipse_ide.Lua.Chunk.Saved.{dump-function_text}

abbrev proto_list : Protos → List Proto
proto_list no_protos = []
proto_list (add_proto f fs) = f ∷ proto_list fs

protos-proto_list : (fs : Protos) → protos (proto_list fs) ≡ fs
protos-proto_list no_protos = refl
protos-proto_list (add_proto f fs) = rw (protos-proto_list fs)

-- The source that stands for "the same as around it" means the same at both ends.
abbrev pub SameParent : Bool → Option Bytes → Option Bytes → Type 0
SameParent true saved given = Unit {0}
SameParent false none given = Unit {0}
SameParent false (some q) given = given ≡ some q

saved_source-source_or :
    (strip : Bool) (source p q : Option Bytes)
    → HasSource source
    → SameParent strip p q
    → source_or (saved_source strip source p) q ≡ kept_source strip q source
unfolding same_source
saved_source-source_or strip none p q h same = absurd (omega arith)
saved_source-source_or true (some s) none q h same = refl
saved_source-source_or true (some s) (some p) q h same = ground arith
saved_source-source_or false (some s) none q h same = refl
saved_source-source_or false (some s) (some p) q h same = ground (arith, same, eq_bytes_iff s p)

saved_source-StringFits :
    (same : Bool) (source : Option Bytes)
    → HasSource source
    → StringFits (if same then none else source)
saved_source-StringFits same none h = absurd (omega arith)
saved_source-StringFits true (some s) h = tt
saved_source-StringFits false (some s) h = h

pub load_code-Reads :
    (xs : List ℕ) → ListFits (λ c. c < 4294967296) xs → Reads load_code (list_text (word 4) xs) xs
unfolding load_code
load_code-Reads xs h = load_list-Reads (load_word 4) (word 4) xs (λ c h. load_word-Reads 4 c h) h

-- All of a function's fields but the debug data.
abbrev main_fields : ProtoFields → Option Bytes → ProtoFields
main_fields f source = record f { source = source; lineinfo = []; locvars = []; upvalues = [] }

load_fields-Reads :
    (strip : Bool) (f : ProtoFields) (p q : Option Bytes)
    → FieldsFit f
    → SameParent strip p q
    → Reads (load_fields q) (fields_text strip p f) (main_fields f (kept_source strip q f.source))
unfolding load_fields fields_text pure
load_fields-Reads strip f p q h same =
    Reads-bind _ (load_string-Reads _ (saved_source-StringFits _ f.source h.source)) (
      Reads-bind _ (load_count-Reads f.linedefined h.linedefined) (
        Reads-bind _ (load_count-Reads f.lastlinedefined h.lastlinedefined) (
          Reads-bind _ (load_byte-Reads f.nups h.nups) (
            Reads-bind _ (load_byte-Reads f.numparams h.numparams) (
              Reads-bind _ (load_byte-Reads f.is_vararg h.is_vararg) (
                Reads-bind _ (load_byte-Reads f.maxstacksize h.maxstacksize) (
                  Reads-bind _ (load_code-Reads f.code h.code) (
                    Reads-last _
                      (load_list-Reads load_constant constant_text f.k load_constant-Reads h.k)
                      λ rest. rw (
                        pos-pos_part f.linedefined h.linedefined,
                        pos-pos_part f.lastlinedefined h.lastlinedefined,
                        saved_source-source_or strip f.source p q h.source same,
                      )))))))))

unless_stripped-ListFits {ℓ} :
    {A : Type ℓ} (P : A → Type 0) (strip : Bool) (xs : List A)
    → ListFits P xs
    → ListFits P (unless_stripped strip xs)
unless_stripped-ListFits P true xs h = (omega arith, tt)
unless_stripped-ListFits P false xs h = h

load_debug-Reads :
    (strip : Bool) (f : ProtoFields) (q : Option Bytes)
    → FieldsFit f
    → Reads (load_debug (main_fields f q)) (debug_text strip f) (record f {
      source = q;
      lineinfo = unless_stripped strip f.lineinfo;
      locvars = unless_stripped strip f.locvars;
      upvalues = unless_stripped strip f.upvalues;
    })
unfolding load_debug debug_text pure
load_debug-Reads strip f q h =
    Reads-bind _
      (load_list-Reads load_any_int int_word _ load_any_int-Reads
        (unless_stripped-ListFits _ strip f.lineinfo h.lineinfo))
      (Reads-bind _
        (load_list-Reads load_locvar locvar_text _ load_locvar-Reads
          (unless_stripped-ListFits _ strip f.locvars h.locvars))
        (Reads-last _
          (load_list-Reads load_string string_text _ load_string-Reads
            (unless_stripped-ListFits _ strip f.upvalues h.upvalues))
          λ rest. refl))

string_text-length : (s : Option Bytes) → 8 ≤ length (string_text s)
unfolding string_text
string_text-length none = omega (arith, length-word 8 0)
string_text-length (some s) =
    omega
      (arith, length-word 8 (suc (length s)), length-append (word 8 (suc (length s))) (s ++ 0 ∷ []))

fields_text-length :
    (strip : Bool) (p : Option Bytes) (f : ProtoFields) → 8 ≤ length (fields_text strip p f)
unfolding fields_text
fields_text-length strip p f = omega (
  arith,
  string_text-length (saved_source strip f.source p),
  length-append (string_text (saved_source strip f.source p)) _,
)

-- The parts of a function's text, with their lengths.
function_text-length :
    (strip : Bool) (p : Option Bytes) (f : ProtoFields) (fs : Protos)
    → 8 + length (functions_text strip f.source fs) ≤ length (function_text strip p (proto f fs))
unfolding function_text
function_text-length strip p f fs =
    let inner = functions_text strip f.source fs in
    let count = int_word (pos (count_protos fs)) in
    omega (
      arith,
      fields_text-length strip p f,
      length-append (fields_text strip p f) (count ++ inner ++ debug_text strip f),
      length-append (count ++ inner) (debug_text strip f),
      length-append count inner,
    )

SameParent-inner :
    (strip : Bool) (q source : Option Bytes) → SameParent strip source (kept_source strip q source)
SameParent-inner true q source = tt
SameParent-inner false q none = tt
SameParent-inner false q (some s) = refl

SameParent-none : (strip : Bool) (q : Option Bytes) → SameParent strip none q
SameParent-none true q = tt
SameParent-none false q = tt

module _ (check : Proto → Verdict) (strip : Bool) where
  with_fuel-Reads :
      (fuel : ℕ) (f : Proto) (p q : Option Bytes)
      → length (function_text strip p f) ≤ fuel
      → ((n : ℕ)
          → length (function_text strip p f) ≤ suc n
          → Reads (load_function check (suc n) q) (function_text strip p f) (stripped strip q f))
      → Reads (load_function check fuel q) (function_text strip p f) (stripped strip q f)
  with_fuel-Reads zero (proto f fs) p q enough h =
      absurd (omega (arith, function_text-length strip p f fs))
  with_fuel-Reads (suc n) f p q enough h = h n enough

  checked-proto :
      (g : Proto) → check g ≡ accepted → (rest : Bytes) → checked check g rest ≡ loaded g rest
  unfolding pure
  checked-proto g h rest = rw h

  mutual
    unfolding load_function load_list load_times function_text functions_text ProtoFits ProtosFit
        Passes AllPass stripped all_stripped pure

    load_function-Reads :
        (fuel : ℕ) (f : Proto) (p q : Option Bytes)
        → ProtoFits f
        → SameParent strip p q
        → Passes check (stripped strip q f)
        → length (function_text strip p f) ≤ suc fuel
        → Reads (load_function check (suc fuel) q) (function_text strip p f) (stripped strip q f)
    load_function-Reads fuel (proto f fs) p q (fits, few, all) same (ok, pass) enough =
        Reads-bind _ (load_fields-Reads strip f p q fits same) (
          Reads-bind _
            (Reads-bind _ (load_int-Reads (count_protos fs) few) (
              load_functions-Reads fuel fs f.source (kept_source strip q f.source) all
                (SameParent-inner strip q f.source) pass
                (omega (arith, function_text-length strip p f fs, enough))))
            (Reads-last _ (load_debug-Reads strip f (kept_source strip q f.source) fits) λ rest.
              rw (protos-proto_list (all_stripped strip (kept_source strip q f.source) fs))
                (checked-proto _ ok rest)))

    load_functions-Reads :
        (fuel : ℕ) (fs : Protos) (p q : Option Bytes)
        → ProtosFit fs
        → SameParent strip p q
        → AllPass check (all_stripped strip q fs)
        → length (functions_text strip p fs) ≤ fuel
        → Reads
            (load_times (count_protos fs) (load_function check fuel q))
            (functions_text strip p fs)
            (proto_list (all_stripped strip q fs))
    load_functions-Reads fuel no_protos p q all same pass enough = record { at = λ rest. refl }
    load_functions-Reads fuel (add_proto f fs) p q (fits, all) same (ok, pass) enough =
        let both = length-append (function_text strip p f) (functions_text strip p fs) in
        Reads-bind _
          (with_fuel-Reads fuel f p q (omega (arith, both, enough))
            λ n h. load_function-Reads n f p q fits same ok h)
          (Reads-map (λ gs. stripped strip q f ∷ gs)
            (load_functions-Reads fuel fs p q all same pass (omega (arith, both, enough))))

  check_header-Reads : Reads (check_header check header) [] tt
  unfolding pure
  check_header-Reads = record { at = λ rest. rw (eq_bytes_refl header) }

  -- The whole chunk, with enough fuel.
  chunk-Reads :
      (fuel : ℕ) (f : Proto) (q : Option Bytes)
      → ProtoFits f
      → Passes check (stripped strip q f)
      → length (function_text strip none f) ≤ suc fuel
      → Reads
          (load_block 12 >>= λ h. check_header check h >>= λ ok. load_function check (suc fuel) q)
          (header ++ function_text strip none f)
          (stripped strip q f)
  chunk-Reads fuel f q fits pass enough = Reads-bind _ (load_block-Reads 12 header refl) (
      Reads-bind _ check_header-Reads
        (load_function-Reads fuel f none q fits (SameParent-none strip q) pass enough))

-- What `string.dump` saves is loaded again as it was, or without its debug data if it was saved
-- stripped, if every number fits its place in the format and the check of the code accepts what
-- is loaded.
pub undump-dump :
    (check : Proto → Verdict) (strip : Bool) (f : Proto)
    → ProtoFits f
    → Passes check (stripped strip (some (codes "=?")) f)
    → undump check (dump append_writer f [] strip).target
      ≡ loaded (stripped strip (some (codes "=?")) f) []
unfolding undump
undump-dump check strip f fits pass =
    let text = header ++ function_text strip none f in
    let enough : length (function_text strip none f) ≤ suc (length text) =
      omega (arith, length-append header (function_text strip none f)) in
    rw (dump-function_text f [] strip, sym (append-nil text))
      ((chunk-Reads check strip (length text) f (some (codes "=?")) fits pass enough).at [])

-- A function that is saved with its debug data is loaded as it was.
mutual
  unfolding stripped all_stripped

  pub stripped-false : (p : Option Bytes) (f : Proto) → stripped false p f ≡ f
  stripped-false p (proto f fs) = ap (proto f) (all_stripped-false f.source fs)

  all_stripped-false : (p : Option Bytes) (fs : Protos) → all_stripped false p fs ≡ fs
  all_stripped-false p no_protos = refl
  all_stripped-false p (add_proto f fs) =
      ap₂ add_proto (stripped-false p f) (all_stripped-false p fs)
