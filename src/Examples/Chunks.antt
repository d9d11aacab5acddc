-- ===== src/Examples/Chunks.antt =====
-- A chunk that is saved and loaded again (open-ldb/ldump.c, open-ldb/lundump.c).
use lua_eclipse_ide.Base.{
  ℕ, true, false, List, [], ◌∷◌, Bytes, some, codes, ℤ, pos, ◌≡◌, ◌≢◌, refl, arith, ltb,
  if◌then◌else◌, length, ◌++◌, ◌+◌, eq_bytes,
}
use lua_eclipse_ide.Lua.Chunk.{
  nil_constant, boolean_constant, number_constant, string_constant, ProtoFields, Proto, proto,
  no_protos, add_proto,
}
use lua_eclipse_ide.Lua.Chunk.Dump.{append_writer, dump}
use lua_eclipse_ide.Lua.Chunk.Load.{
  stray_read, checked, Verdict, accepted, refused, loaded, failed, unexpected_end, bad_header,
  unfinished, undump, load_block, load_times, load_byte, pure, fail,
}
use lua_eclipse_ide.Lua.Chunk.Load
use lua_eclipse_ide.Lua.Chunk.Fits.{
  ProtoFits, ProtosFit, Passes, AllPass, stripped, all_stripped, FieldsFit,
}
use lua_eclipse_ide.Lua.Chunk.RoundTrip.{undump-dump}
use lua_eclipse_ide.Lua.Instructions.{
  get_opcode, getarg_a, getarg_b, getarg_c, getarg_bx, getarg_sbx,
}
use lua_eclipse_ide.Lua.Checker.{
  precheck, check_op, check_arg_mode, check_jump, counts_next, check_open_op,
}
use lua_eclipse_ide.Lua.Checker.Symbexec.{step, walk, symbexec, check_code}
use lua_eclipse_ide.Lua.Checker.Loaded.{accepts, Every, undump-Every}
use lua_eclipse_ide.Lua.Chunk.Ends.{undump_total}
use lua_eclipse_ide.Lua.Chunk.Watched.{Watched, watch, dump-Watched}

abbrev inner_fields : ProtoFields
inner_fields = record {
  source = some (codes "@a.lua");
  linedefined = pos 2;
  lastlinedefined = pos 4;
  nups = 1;
  numparams = 0;
  is_vararg = 0;
  maxstacksize = 2;
  code = 8388638 ∷ [];
  k = nil_constant ∷ boolean_constant (pos 1) ∷ [];
  lineinfo = pos 4 ∷ [];
  locvars = [];
  upvalues = some (codes "x") ∷ [];
}

abbrev main_fields : ProtoFields
main_fields = record {
  source = some (codes "@a.lua");
  linedefined = pos 0;
  lastlinedefined = pos 0;
  nups = 0;
  numparams = 0;
  is_vararg = 2;
  maxstacksize = 3;
  code = 36 ∷ 8388638 ∷ [];
  k =
      string_constant (some (codes "print"))
      ∷ number_constant (0 ∷ 0 ∷ 0 ∷ 0 ∷ 0 ∷ 0 ∷ 240 ∷ 63 ∷ [])
      ∷ [];
  lineinfo = pos 1 ∷ pos 5 ∷ [];
  locvars = record { varname = some (codes "x"); startpc = pos 1; endpc = pos 2 } ∷ [];
  upvalues = [];
}

abbrev main : Proto
main = proto main_fields (add_proto (proto inner_fields no_protos) no_protos)

-- A check that every function has an instruction.
abbrev has_code : Proto → Verdict
has_code (proto f fs) = has_any f.code
  where
    has_any : List ℕ → Verdict
    has_any [] = refused
    has_any (c ∷ cs) = accepted

inner_fits : FieldsFit inner_fields
inner_fits = record {
  source = omega arith;
  linedefined = omega arith;
  lastlinedefined = omega arith;
  nups = omega arith;
  numparams = omega arith;
  is_vararg = omega arith;
  maxstacksize = omega arith;
  code = (omega arith, (omega arith, tt));
  k = (omega arith, (tt, (omega arith, tt)));
  lineinfo = (omega arith, (omega arith, tt));
  locvars = (omega arith, tt);
  upvalues = (omega arith, (omega arith, tt));
}

main_fits : FieldsFit main_fields
main_fits = record {
  source = omega arith;
  linedefined = omega arith;
  lastlinedefined = omega arith;
  nups = omega arith;
  numparams = omega arith;
  is_vararg = omega arith;
  maxstacksize = omega arith;
  code = (omega arith, (omega arith, (omega arith, tt)));
  k = (omega arith, (omega arith, (refl, tt)));
  lineinfo = (omega arith, (omega arith, (omega arith, tt)));
  locvars = (
    omega arith,
    (record { varname = omega arith; startpc = omega arith; endpc = omega arith }, tt),
  );
  upvalues = (omega arith, tt);
}

undump-dump_example :
    undump has_code (dump append_writer main [] true).target
    ≡ loaded (stripped true (some (codes "=?")) main) []
unfolding ProtoFits ProtosFit Passes AllPass stripped all_stripped
undump-dump_example =
    undump-dump has_code true main (main_fits, omega arith, ((inner_fits, omega arith, tt), tt))
      (refl, ((refl, tt), tt))

-- What the loader makes of no bytes, and of a text.
undump_nothing : undump has_code [] ≡ failed unexpected_end
unfolding undump load_block load_times load_byte pure Load.◌>>=◌
undump_nothing = refl

undump_text : undump has_code (codes "print('hello world')") ≡ failed bad_header
unfolding eq_bytes fail undump load_block load_times load_byte pure Load.◌>>=◌
undump_text = refl

-- At a function without an instruction the code checker reads in front of the array.
empty_undefined :
    checked accepts (proto (record inner_fields { code = []; lineinfo = [] }) no_protos) []
    ≡ failed stray_read
unfolding check_code symbexec precheck fail
empty_undefined = refl

undump_total_example : undump has_code (27 ∷ codes "Lua") ≢ failed unfinished
undump_total_example = undump_total has_code (27 ∷ codes "Lua")

-- A writer with little room: with a byte in it, it has none for the header.
abbrev small_writer : Bytes → Bytes → Bytes × ℤ
small_writer t s = if ltb (length t + length s) 12 then (t ++ s, pos 0) else (t, pos 1)

dump-Watched_example : Watched (
    dump
      (watch small_writer)
      main
      (record { target = codes "a"; has_failed = false; called_again = false })
      false)
dump-Watched_example = dump-Watched small_writer main (codes "a") false

-- The code checker as the check of the loader.
undump-Every_example :
    Every accepts (stripped true (some (codes "=?")) (proto inner_fields no_protos))
unfolding ProtoFits ProtosFit Passes AllPass stripped all_stripped check_code symbexec precheck walk
    step check_op check_arg_mode check_jump counts_next check_open_op get_opcode getarg_a getarg_b
    getarg_c getarg_bx getarg_sbx
undump-Every_example =
    undump-Every (dump append_writer (proto inner_fields no_protos) [] true).target (
      undump-dump accepts true (proto inner_fields no_protos) (inner_fits, omega arith, tt)
        (refl, tt))
