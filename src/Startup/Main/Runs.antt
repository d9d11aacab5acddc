-- ===== src/Startup/Main/Runs.antt =====
-- `main` of open-ldb/LuaDebugger.cpp up to the run of the script: its hooks run over the script that it
-- has read from the file, and a script in a buffer is not read.
use lua_eclipse_ide.Base.{
  true, false, Option, none, some, List, [], ◌∷◌, ◌++◌, Bytes, codes, pos, ◌≡◌, refl, ap, ◌∙◌,
}
use lua_eclipse_ide.Fault.{Fault, ok, fault, null_pointer, dangling_pointer}
use lua_eclipse_ide.Source.Lines.{render, number_from, Fits, add_lines}
use lua_eclipse_ide.Source.Read.{read_source-render}
use lua_eclipse_ide.Source.File.{read_file-read_source}
use lua_eclipse_ide.Session.{
  bind_ok, console, Session, ◌>>=◌, pure, lift, gets, print, at_prompt_or_ide,
}
use lua_eclipse_ide.Session.Orders.{tell_ide, view-unseen}
use lua_eclipse_ide.Session.Hook.{run_hooks}
use lua_eclipse_ide.Startup.Args.{Settings, read_command_line}
use lua_eclipse_ide.Startup.Script.{read_file_into_string}
use lua_eclipse_ide.Startup.Main.{
  Interpreter, Connections, calls_of, set_kind, store_scripts, not_null, greet, start_ide,
  read_script, prepare, finish, after_run, main,
}
use lua_eclipse_ide.Startup.Main.Quiet.{
  Calm, Calm-trans, Quiet-pure, Quiet-tell_ide, started, Quiet-greet, Quiet-start_ide,
}

lift_name :
    (o : Option Bytes) (name : Bytes) (s : Session)
    → o ≡ some name
    → lift (not_null o) s ≡ ok (name, s)
unfolding lift
lift_name o name s h = rw h refl

module _ (o : Settings) (name : Bytes) (named : o.script_name ≡ some name) (file : Option Bytes)
    (lua : Interpreter) (c : Connections) (s : Session) where
  -- Up to the reading of the script only the kind of debugger changes.
  pub prepare-read_script :
      (t : Session) × (prepare o file lua c s ≡ read_script file name lua o.buffer_script t)
      × Calm (tell_ide started ∷ []) (record s { kind = o.debugger }) t
  unfolding prepare set_kind
  prepare-read_script =
      let (u, e, j) = (Quiet-greet o name).at (record s { kind = o.debugger }) in
      let (t, e', i) =
        (Quiet-tell_ide started (pure tt) (start_ide o c) Quiet-pure (Quiet-start_ide o c)).at u in
      (
        t,
        bind_ok (set_kind o.debugger) _ s refl (
            bind_ok (lift (not_null o.script_name)) _ (record s { kind = o.debugger })
              (lift_name o.script_name name _ named)
              (bind_ok (greet o name) _ (record s { kind = o.debugger }) e
                (bind_ok (at_prompt_or_ide (pure tt) (start_ide o c)) _ u e' refl))),
        Calm-trans j i,
      )

abbrev listed : Bytes → List Bytes → Session → Session
listed name ls s = record s {
  scripts = add_lines s.scripts name (number_from 1 ls);
  trace = s.trace ++ console (codes "running Lua script " ++ (name ++ codes "\n")) ∷ [];
}

read_script_file :
    (name : Bytes) (ls : List Bytes) (lua : Interpreter) (s : Session)
    → Fits 1 ls
    → read_script (some (render ls)) name lua false s ≡ ok (lua.run_file name, listed name ls s)
unfolding read_script ◌>>=◌ lift gets store_scripts pure print
read_script_file name ls lua s fits =
    rw (read_file-read_source ls s.scripts name fits ∙ read_source-render ls s.scripts name fits)
      refl

module _ (o : Settings) (name : Bytes) (named : o.script_name ≡ some name)
    (from_file : o.buffer_script ≡ false) (ls : List Bytes) (fits : Fits 1 ls) (lua : Interpreter)
    (c : Connections) (s : Session) where
  -- The script can run from a session in which its lines are listed.
  pub prepare_script :
      (t : Session) × (prepare o (some (render ls)) lua c s ≡ ok (lua.run_file name, t))
      × Calm
          (tell_ide started ∷ [])
          (record s { kind = o.debugger; scripts = add_lines s.scripts name (number_from 1 ls) })
          t
  prepare_script =
      let (t, e, k) = prepare-read_script o name named (some (render ls)) lua c s in
      (
        listed name ls t,
        e
            ∙ ap (λ b. read_script (some (render ls)) name lua b t) from_file
            ∙ read_script_file name ls lua t fits,
        record {
          kind = k.kind;
          scripts = ap (λ all. add_lines all name (number_from 1 ls)) k.scripts;
          inputs = k.inputs;
          send_ok = k.send_ok;
          obeyed = λ sends. view-unseen t (console _) t.sent refl ∙ k.obeyed sends;
        },
      )

-- If the arguments name a script that is to be run from its file, which holds lines that fit the
-- readers' buffers, `main` runs it with hooks that start from a session of the asked kind, in which
-- the lines of the script follow, numbered, those that were listed under its name, with all inputs
-- still to come; whatever the exceptions of the sockets are. Where the hooks end in a session the
-- exit code is 0, whether the script has loaded and run well or not.
pub main-run_hooks :
    (argv : List Bytes) (o : Settings) (name : Bytes) (ls : List Bytes) (lua : Interpreter)
    (c : Connections) (s : Session)
    → read_command_line argv ≡ some (ok o)
    → o.script_name ≡ some name
    → o.buffer_script ≡ false
    → Fits 1 ls
    → (t : Session) × (main argv (some (render ls)) lua c s
        ≡ after_run (pure (pos 0)) (run_hooks (calls_of (lua.run_file name)) t))
      × (t.kind ≡ o.debugger)
      × (t.scripts ≡ add_lines s.scripts name (number_from 1 ls))
      × (t.inputs ≡ s.inputs)
unfolding main finish
main-run_hooks argv o name ls lua c s read named from_file fits =
    let (t, e, k) = prepare_script o name named from_file ls fits lua c s in
    (t, rw (read, e, from_file) refl, k.kind, k.scripts, k.inputs)

abbrev pointer_fault : Option Bytes → Fault
pointer_fault none = null_pointer
pointer_fault (some file) = dangling_pointer

read_script_buffer :
    (file : Option Bytes) (name : Bytes) (lua : Interpreter) (s : Session)
    → read_script file name lua true s ≡ fault (pointer_fault file)
unfolding read_script ◌>>=◌ lift read_file_into_string
read_script_buffer none name lua s = refl
read_script_buffer (some file) name lua s = refl

-- If the arguments name a script that is to be run from a buffer, `main` reads through a pointer to a
-- text that is gone, or through the null pointer where the file cannot be opened, before the
-- interpreter is asked for anything; whatever the script, the sockets and the session are.
pub main_buffer_undefined :
    (argv : List Bytes) (o : Settings) (name : Bytes) (file : Option Bytes) (lua : Interpreter)
    (c : Connections) (s : Session)
    → read_command_line argv ≡ some (ok o)
    → o.script_name ≡ some name
    → o.buffer_script ≡ true
    → main argv file lua c s ≡ some (fault (pointer_fault file))
unfolding main
main_buffer_undefined argv o name file lua c s read named in_buffer =
    let (t, e, k) = prepare-read_script o name named file lua c s in
    rw
      (
        read,
        e ∙ ap (λ b. read_script file name lua b t) in_buffer ∙ read_script_buffer file name lua t,
      )
      refl
