-- ===== src/Lua/Chunk/Watched.antt =====
-- The writer is not called again after it has failed (open-ldb/ldump.c).
use lua_eclipse_ide.Base.{
  Bool, false, not, ◌||◌, List, [], ◌∷◌, Bytes, Option, none, some, ℤ, pos, eq_int, ◌≡◌, refl,
  Bool-cases, inl, inr,
}
use lua_eclipse_ide.Lua.Chunk.{
  LocVar, Constant, nil_constant, boolean_constant, number_constant, string_constant, ProtoFields,
  Proto, Protos, proto, no_protos, add_proto,
}
use lua_eclipse_ide.Lua.Chunk.Dump.{
  DumpState, dump_block, dump_char, dump_int, dump_number, dump_string, dump_code, dump_constant,
  dump_each, dump_list, dump_lineinfo, dump_locvar, dump_debug, dump_fields, dump_function,
  dump_functions, dump,
}

-- A writer's own state, whether the last call has failed, and whether there was a call after one that
-- had failed.
pub record Watch {ℓ} (W : Type ℓ) : Type ℓ where
  pub target : W
  pub has_failed : Bool
  pub called_again : Bool

abbrev pub watched_call {ℓ} : {W : Type ℓ} → Watch W → W × ℤ → Watch W × ℤ
watched_call w (target, status) = (
  record {
    target = target;
    has_failed = not (eq_int status (pos 0));
    called_again = w.called_again || w.has_failed;
  },
  status,
)

-- Any writer, watched.
abbrev pub watch {ℓ} : {W : Type ℓ} → (W → Bytes → W × ℤ) → Watch W → Bytes → Watch W × ℤ
watch writer w b = watched_call w (writer w.target b)

-- The status says whether the last call has failed, and there was none after it.
pub record Watched {ℓ} {W : Type ℓ} (d : DumpState (Watch W)) : Type 0 where
  pub known : d.target.has_failed ≡ not (eq_int d.status (pos 0))
  pub once : d.target.called_again ≡ false

module _ {ℓ} {W : Type ℓ} (writer : W → Bytes → W × ℤ) where
  abbrev State : Type ℓ
  State = DumpState (Watch W)

  record Careful (m : State → State) : Type ℓ where
    at : (d : State) → Watched d → Watched (m d)

  Careful-block : (b : Bytes) → Careful (dump_block (watch writer) b)
  unfolding dump_block
  Careful-block b = record {
    at = λ d h. elim (Bool-cases (eq_int d.status (pos 0))) [
      | inl good ↦ rw good (record { known = refl; once = rw (h.once, h.known, good) refl })
      | inr bad ↦ rw bad h
    ];
  }

  Careful-then : (m n : State → State) → Careful m → Careful n → Careful (λ d. n (m d))
  Careful-then m n p q = record { at = λ d h. q.at (m d) (p.at d h) }

  Careful-char : (y : ℤ) → Careful (dump_char (watch writer) y)
  unfolding dump_char
  Careful-char y = Careful-block _

  Careful-int : (x : ℤ) → Careful (dump_int (watch writer) x)
  unfolding dump_int
  Careful-int x = Careful-block _

  Careful-number : (x : Bytes) → Careful (dump_number (watch writer) x)
  unfolding dump_number
  Careful-number x = Careful-block _

  Careful-string : (s : Option Bytes) → Careful (dump_string (watch writer) s)
  unfolding dump_string
  Careful-string none = Careful-block _
  Careful-string (some s) = Careful-then _ _ (Careful-block _) (Careful-block _)

  Careful-code : (code : List _) → Careful (dump_code (watch writer) code)
  unfolding dump_code
  Careful-code code = Careful-then _ _ (Careful-int _) (Careful-block _)

  Careful-constant : (c : Constant) → Careful (dump_constant (watch writer) c)
  unfolding dump_constant
  Careful-constant nil_constant = Careful-char _
  Careful-constant (boolean_constant b) = Careful-then _ _ (Careful-char _) (Careful-char _)
  Careful-constant (number_constant n) = Careful-then _ _ (Careful-char _) (Careful-number _)
  Careful-constant (string_constant s) = Careful-then _ _ (Careful-char _) (Careful-string _)

  Careful-locvar : (v : LocVar) → Careful (dump_locvar (watch writer) v)
  unfolding dump_locvar
  Careful-locvar v =
      Careful-then _ _ (Careful-string _) (Careful-then _ _ (Careful-int _) (Careful-int _))

  Careful-each {κ} :
      {A : Type κ} (f : A → State → State)
      → ((x : A) → Careful (f x))
      → (xs : List A) → Careful (dump_each (watch writer) f xs)
  unfolding dump_each
  Careful-each f h [] = record { at = λ d k. k }
  Careful-each f h (x ∷ xs) = Careful-then _ _ (h x) (Careful-each f h xs)

  Careful-list {κ} :
      {A : Type κ} (f : A → State → State)
      → ((x : A) → Careful (f x))
      → (xs : List A) → Careful (dump_list (watch writer) f xs)
  Careful-list f h xs = Careful-then _ _ (Careful-int _) (Careful-each f h xs)

  Careful-lineinfo : (lines : List ℤ) → Careful (dump_lineinfo (watch writer) lines)
  Careful-lineinfo lines = Careful-then _ _ (Careful-int _) (Careful-block _)

  -- The lists that are left out depend on the state.
  Careful-debug : (f : ProtoFields) → Careful (dump_debug (watch writer) f)
  unfolding dump_debug
  Careful-debug f = record {
    at = λ d.
        (Careful-then _ _ (Careful-lineinfo _) (
            Careful-then _ _ (Careful-list _ Careful-locvar _)
              (Careful-list _ Careful-string _))).at
          d;
  }

  Careful-fields : (f : ProtoFields) (p : Option Bytes) → Careful (dump_fields (watch writer) f p)
  unfolding dump_fields
  Careful-fields f p = record {
    at = λ d.
        (Careful-then _ _ (Careful-string _) (
            Careful-then _ _ (Careful-int _) (
              Careful-then _ _ (Careful-int _) (
                Careful-then _ _ (Careful-char _) (
                  Careful-then _ _ (Careful-char _) (
                    Careful-then _ _ (Careful-char _) (
                      Careful-then _ _ (Careful-char _) (
                        Careful-then _ _ (Careful-code _)
                          (Careful-list _ Careful-constant _))))))))).at
          d;
  }

  mutual
    unfolding dump_function dump_functions

    Careful-function : (f : Proto) (p : Option Bytes) → Careful (dump_function (watch writer) f p)
    Careful-function (proto f fs) p = Careful-then _ _ (Careful-fields f p) (
        Careful-then _ _ (Careful-int _)
          (Careful-then _ _ (Careful-functions fs f.source) (Careful-debug f)))

    Careful-functions :
        (fs : Protos) (p : Option Bytes) → Careful (dump_functions (watch writer) fs p)
    Careful-functions no_protos p = record { at = λ d h. h }
    Careful-functions (add_proto f fs) p =
        Careful-then _ _ (Careful-function f p) (Careful-functions fs p)

  -- Whatever the writer does and at whatever block it fails, it is not called after a call that has
  -- failed, and the status that `luaU_dump` ends with tells whether one has.
  pub dump-Watched :
      (f : Proto) (target : W) (strip : Bool)
      → Watched (
          dump
            (watch writer)
            f
            (record { target = target; has_failed = false; called_again = false })
            strip)
  unfolding dump eq_int
  dump-Watched f target strip =
      (Careful-then _ _ (Careful-block _) (Careful-function f none)).at
        (record {
          target = record { target = target; has_failed = false; called_again = false };
          strip = strip;
          status = pos 0;
        })
        (record { known = refl; once = refl })
