-- ===== src/Examples/Checked.antt =====
-- Functions that the code checker looks at (open-ldb/ldebug.c, open-ldb/lvm.c).
use lua_eclipse_ide.Base.{ℕ, List, [], ◌∷◌, pos, none, ◌≡◌, ◌≢◌, refl, arith, length, ◌<◌}
use lua_eclipse_ide.Lua.Instructions.{
  op_loadbool, op_setlist, op_newtable, op_test, op_closure, get_opcode, getarg_a, getarg_b,
  getarg_c, getarg_bx, getarg_sbx,
}
use lua_eclipse_ide.Lua.Chunk.{ProtoFields, proto, no_protos, add_proto, Protos}
use lua_eclipse_ide.Lua.Checker.{
  pass, stray, precheck, check_op, check_arg_mode, check_jump, counts_next, check_open_op,
}
use lua_eclipse_ide.Lua.Checker.Symbexec.{step, walk, symbexec, check_code}
use lua_eclipse_ide.Lua.Checker.Passed.{Checked}
use lua_eclipse_ide.Lua.Checker.Flow.{
  Reach, entry, onward, closure_made, bool_loaded, test_jumped, list_set, straight_on,
}
use lua_eclipse_ide.Lua.Checker.Sound.{Reach-Checked}
use lua_eclipse_ide.Lua.Checker.Reads.{symbexec-stray}

abbrev function_of : ℕ → List ℕ → ProtoFields
function_of nups code = record {
  source = none;
  linedefined = pos 0;
  lastlinedefined = pos 0;
  nups = nups;
  numparams = 0;
  is_vararg = 0;
  maxstacksize = 2;
  code = code;
  k = [];
  lineinfo = [];
  locvars = [];
  upvalues = [];
}

-- CLOSURE 0 0, MOVE 0 0, LOADBOOL 1 1 1, LOADBOOL 1 0 0, TEST 1 0, JMP -6, RETURN 0 1
abbrev looping : ProtoFields
looping = function_of 0 (36 ∷ 0 ∷ 8405058 ∷ 66 ∷ 90 ∷ 2147368982 ∷ 8388638 ∷ [])

abbrev inner : Protos
inner = add_proto (proto (function_of 1 (8388638 ∷ [])) no_protos) no_protos

looping_accepted : check_code looping inner ≡ pass tt
unfolding check_code symbexec precheck walk step check_op check_arg_mode check_jump counts_next
    check_open_op get_opcode getarg_a getarg_b getarg_c getarg_bx getarg_sbx
looping_accepted = refl

looping-Reach : Reach looping inner (pos 0)
unfolding get_opcode getarg_c getarg_bx getarg_sbx
looping-Reach =
    onward
      (onward
        (onward entry
          (closure_made {op = op_closure} (record { at = refl; is_op = refl }) refl refl))
        (bool_loaded {op = op_loadbool} (record { at = refl; is_op = refl }) refl))
      (test_jumped {op = op_test} (record { at = refl; is_op = refl }) refl refl)

Reach-Checked_example :
    (pc : ℕ) × (pos 0 ≡ pos pc) × (pc < length looping.code) × Checked looping inner pc
unfolding counts_next get_opcode getarg_c
Reach-Checked_example = Reach-Checked looping inner looping_accepted refl looping-Reach

symbexec-stray_example : symbexec looping inner 4 1 ≢ stray
symbexec-stray_example = symbexec-stray looping inner 4 1 (omega arith) (omega arith)

-- NEWTABLE 0 0 0, SETLIST 0 1 0, RETURN 0 1: the last instruction is the count.
abbrev short : ProtoFields
short = function_of 0 (10 ∷ 8388642 ∷ 8388638 ∷ [])

short_accepted : check_code short no_protos ≡ pass tt
unfolding check_code symbexec precheck walk step check_op check_arg_mode check_jump counts_next
    check_open_op get_opcode getarg_a getarg_b getarg_c getarg_bx getarg_sbx
short_accepted = refl

short-Reach : Reach short no_protos (pos 3)
unfolding get_opcode getarg_c
short-Reach =
    onward (onward entry (straight_on {op = op_newtable} (record { at = refl; is_op = refl }) refl))
      (list_set {op = op_setlist} (record { at = refl; is_op = refl }) refl)

-- LOADBOOL 0 0 1, SETLIST 0 1 0, the count 4294967295, RETURN 0 1: the count is executed.
abbrev skipping : ProtoFields
skipping = function_of 0 (16386 ∷ 8388642 ∷ 4294967295 ∷ 8388638 ∷ [])

skipping_accepted : check_code skipping no_protos ≡ pass tt
unfolding check_code symbexec precheck walk step check_op check_arg_mode check_jump counts_next
    check_open_op get_opcode getarg_a getarg_b getarg_c getarg_bx getarg_sbx
skipping_accepted = refl

skipping-Reach : Reach skipping no_protos (pos 2)
unfolding get_opcode getarg_c
skipping-Reach =
    onward entry (bool_loaded {op = op_loadbool} (record { at = refl; is_op = refl }) refl)

-- A function without instructions: the word before the array is read.
empty_stray : check_code (function_of 0 []) no_protos ≡ stray
unfolding check_code symbexec precheck
empty_stray = refl
