-- ===== src/Inspect/Ide/Values.antt =====
-- What `getLocalVarValue` and `getGlobals` answer.
use lua_eclipse_ide.Base.{
  ℕ, zero, suc, ◌+◌, ◌<◌, ◌≤◌, Bytes, ◌++◌, codes, List, [], ◌∷◌, Option, none, some, Bool,
  if◌then◌else◌, length, eq_bytes, ℤ, ◌≡◌, refl, ◌∙◌, ap, sym, arith, Bool-cases, inl, inr, fun_ext,
}
use lua_eclipse_ide.Fault.{Result, ok, ◌>>=◌, strcat}
use lua_eclipse_ide.Fault.Buffers.{bind_assoc, strcat-sprintf, sprintf-fits}
use lua_eclipse_ide.Text.{take_bytes}
use lua_eclipse_ide.LuaView.{
  LuaValue, nil, boolean, light_userdata, number, string, userdata, thread, Frame, LuaState, c_str,
  get_stack,
}
use lua_eclipse_ide.Inspect.{print_it}
use lua_eclipse_ide.Inspect.Ide.{
  value_size, local_value, local_value_loop, get_local_var_value, global_value, global_values,
  get_globals,
}

-- The first local variable of the name, as `lua_getlocal` numbers them.
abbrev pub lookup_local : Bytes → List (Bytes × LuaValue) → Option LuaValue
lookup_local var [] = none
lookup_local var ((name, v) ∷ rest) = if eq_bytes var name then some v else lookup_local var rest

-- A number, or a string: the values whose text the answer can be.
pub data IsScalar : LuaValue → Type 0 where
  number_is : (t : Bytes) → length t < value_size → IsScalar (number t)
  string_is : (s : Bytes) → IsScalar (string s)

length-take_bytes : (n : ℕ) (s : Bytes) → length (take_bytes n s) ≤ n
unfolding take_bytes
length-take_bytes zero s = omega arith
length-take_bytes (suc n) [] = omega arith
length-take_bytes (suc n) (c ∷ s) = omega (arith, length-take_bytes n s)

local_value-print_it :
    (l : LuaState) (i : ℕ) (name : Bytes) {v : LuaValue}
    → IsScalar v
    → local_value l i name v ≡ ok (print_it v)
unfolding local_value print_it
local_value-print_it l i name (number_is t h) =
    strcat-sprintf value_size [] t ∙ sprintf-fits value_size t h
local_value-print_it l i name (string_is s) =
    strcat-sprintf value_size [] (take_bytes 63 (c_str s))
    ∙ sprintf-fits value_size (take_bytes 63 (c_str s))
        (omega (arith, length-take_bytes 63 (c_str s)))

local_value_loop-lookup_local :
    (locals : List (Bytes × LuaValue)) (l : LuaState) (i : ℕ) (var val : Bytes) {v : LuaValue}
    → lookup_local var locals ≡ some v
    → IsScalar v
    → local_value_loop l i (some var) locals val ≡ ok (print_it v)
unfolding local_value_loop
local_value_loop-lookup_local [] l i var val h s = cc
local_value_loop-lookup_local ((name, w) ∷ rest) l i var val {v} h s =
    elim (Bool-cases (eq_bytes var name)) [
      | inl same ↦
          let e : w ≡ v = ground arith in
          rw same (ap (local_value l (i + 1) name) e ∙ local_value-print_it l (i + 1) name s)
      | inr other ↦
          rw other (local_value_loop-lookup_local rest l (i + 1) var val (rw other at h) s)
    ]

local_value_loop-missing :
    (locals : List (Bytes × LuaValue)) (l : LuaState) (i : ℕ) (var val : Bytes)
    → lookup_local var locals ≡ none
    → local_value_loop l i (some var) locals val ≡ ok val
unfolding local_value_loop
local_value_loop-missing [] l i var val h = refl
local_value_loop-missing ((name, w) ∷ rest) l i var val h =
    ground (arith, local_value_loop-missing rest l (i + 1) var val)

-- The answer for the first local variable of the name, if it holds a number or a string: the text
-- that `printIt` gives.
pub get_local_var_value-lookup_local :
    (l : LuaState) (level : ℤ) (var : Bytes) {f : Frame} {v : LuaValue}
    → get_stack l level ≡ some f
    → lookup_local var f.locals ≡ some v
    → IsScalar v
    → get_local_var_value l level (some var) ≡ ok (print_it v)
unfolding get_local_var_value strcat
get_local_var_value-lookup_local l level var {f} found h s =
    rw found (local_value_loop-lookup_local f.locals l 1 var (codes "notFound") h s)

-- Without a variable of the name at that level, the answer is "notFound".
pub get_local_var_value_missing :
    (l : LuaState) (level : ℤ) (var : Bytes) {f : Frame}
    → get_stack l level ≡ some f
    → lookup_local var f.locals ≡ none
    → get_local_var_value l level (some var) ≡ ok (codes "notFound")
unfolding get_local_var_value strcat
get_local_var_value_missing l level var {f} found h =
    rw found (local_value_loop-missing f.locals l 1 var (codes "notFound") h)

-- With a value at index 1 of the stack, a global's text depends on no other part of the state.
global_value_stack :
    (l l' : LuaState) (x : LuaValue) (xs : List LuaValue) (name : Bytes) (v : LuaValue)
    (val : Bytes)
    → l.stack ≡ x ∷ xs
    → l'.stack ≡ x ∷ xs
    → global_value l name v val ≡ global_value l' name v val
unfolding global_value
global_value_stack l l' x xs name (boolean b) val h h' = rw (h, h')
global_value_stack l l' x xs name _ val h h' = refl

global_value_boolean :
    (l : LuaState) (x : LuaValue) (xs : List LuaValue) (name val : Bytes) (b b' : Bool)
    → l.stack ≡ x ∷ xs
    → global_value l name (boolean b) val ≡ global_value l name (boolean b') val
unfolding global_value
global_value_boolean l x xs name val b b' h = rw h

-- The same globals, but for the truth values of the booleans among them.
pub data SameButBooleans : List (Bytes × LuaValue) → List (Bytes × LuaValue) → Type 0 where
  no_globals : SameButBooleans [] []
  same_global :
      {gs hs : List (Bytes × LuaValue)} (name : Bytes) (v : LuaValue)
      → SameButBooleans gs hs
      → SameButBooleans ((name, v) ∷ gs) ((name, v) ∷ hs)
  boolean_global :
      {gs hs : List (Bytes × LuaValue)} (name : Bytes) (b b' : Bool)
      → SameButBooleans gs hs
      → SameButBooleans ((name, boolean b) ∷ gs) ((name, boolean b') ∷ hs)

module _ (l l' : LuaState) (x : LuaValue) (xs : List LuaValue) (h : l.stack ≡ x ∷ xs)
    (h' : l'.stack ≡ x ∷ xs) where
  global_values_booleans :
      {gs hs : List (Bytes × LuaValue)} (val : Bytes)
      → SameButBooleans gs hs
      → global_values l gs val ≡ global_values l' hs val
  unfolding global_values
  global_values_booleans val no_globals = refl
  global_values_booleans val (same_global {gs} {hs} name v r) =
      ap (λ (m : Result Bytes). m >>= global_values l gs)
        (global_value_stack l l' x xs name v val h h')
      ∙ ap (λ (k : Bytes → Result Bytes). global_value l' name v val >>= k)
          (fun_ext λ t. global_values_booleans t r)
  global_values_booleans val (boolean_global {gs} {hs} name b b' r) =
      ap (λ (m : Result Bytes). m >>= global_values l gs)
        (global_value_boolean l x xs name val b b' h
          ∙ global_value_stack l l' x xs name (boolean b') val h h')
      ∙ ap (λ (k : Bytes → Result Bytes). global_value l' name (boolean b') val >>= k)
          (fun_ext λ t. global_values_booleans t r)

-- Two states with the same non-empty stack, whose globals differ in nothing but the values of
-- booleans, get the same answer from `getGlobals`: it does not show what a boolean holds.
pub get_globals-SameButBooleans :
    (l l' : LuaState) (x : LuaValue) (xs : List LuaValue)
    → l.stack ≡ x ∷ xs
    → l'.stack ≡ x ∷ xs
    → SameButBooleans l.globals l'.globals
    → get_globals l ≡ get_globals l'
unfolding get_globals
get_globals-SameButBooleans l l' x xs h h' r = global_values_booleans l l' x xs h h' [] r

-- A value of a type that `getGlobals` has no case for.
pub data IsNotDisplayable : LuaValue → Type 0 where
  nil_is : IsNotDisplayable nil
  light_userdata_is : IsNotDisplayable light_userdata
  userdata_is : IsNotDisplayable userdata
  thread_is : IsNotDisplayable thread

global_value_forgets :
    (l : LuaState) (name val : Bytes) {v : LuaValue}
    → IsNotDisplayable v
    → global_value l name v val ≡ global_value l name v []
unfolding global_value
global_value_forgets l name val nil_is = refl
global_value_forgets l name val light_userdata_is = refl
global_value_forgets l name val userdata_is = refl
global_value_forgets l name val thread_is = refl

global_values-append :
    (gs hs : List (Bytes × LuaValue)) (l : LuaState) (val : Bytes)
    → global_values l (gs ++ hs) val ≡ (global_values l gs val >>= global_values l hs)
unfolding global_values
global_values-append [] hs l val = refl
global_values-append ((name, v) ∷ gs) hs l val =
    ap (λ (k : Bytes → Result Bytes). global_value l name v val >>= k)
      (fun_ext λ t. global_values-append gs hs l t)
    ∙ sym (bind_assoc (global_value l name v val) (global_values l gs) (global_values l hs))

-- At a global of such a type the loop drops all that it has gathered: the answer is what the loop
-- gives from that global on.
pub get_globals_forgets :
    (l : LuaState) (before after : List (Bytes × LuaValue)) (name gathered : Bytes) {v : LuaValue}
    → l.globals ≡ before ++ (name, v) ∷ after
    → IsNotDisplayable v
    → global_values l before [] ≡ ok gathered
    → get_globals l ≡ global_values l ((name, v) ∷ after) []
unfolding get_globals global_values
get_globals_forgets l before after name gathered {v} e d done =
    ap (λ (gs : List (Bytes × LuaValue)). global_values l gs []) e
    ∙ global_values-append before ((name, v) ∷ after) l []
    ∙ ap (λ (m : Result Bytes). m >>= global_values l ((name, v) ∷ after)) done
    ∙ ap (λ (m : Result Bytes). m >>= global_values l after)
        (global_value_forgets l name gathered d)
