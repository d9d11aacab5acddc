-- ===== src/Session/Execute/Gives.antt =====
-- Which commands let the script go on: what the branches of `commandParser` (open-ldb/LuaDebugger.cpp)
-- leave in `keepGoing`.
use lua_eclipse_ide.Base.{Bytes, not, ◌≡◌, refl, ap}
use lua_eclipse_ide.Fault.{Result, ok, fault}
use lua_eclipse_ide.Fault
use lua_eclipse_ide.LuaView.{LuaState, Activation}
use lua_eclipse_ide.Command.{Command}
use lua_eclipse_ide.Session.{Session, M, ◌>>=◌, pure, raise}
use lua_eclipse_ide.Session.Dialogue.{resumes}
use lua_eclipse_ide.Session.Execute.{
  run_var, run_suspend, run_list, run_set_break, run_clear_break, run_display, run_step,
  run_continue, run_print, run_quit, run_unknown, execute,
}

abbrev pub Given : {A : Type 0} → A → Result (A × Session) → Type 0
Given a (ok (b, s)) = b ≡ a
Given a (fault e) = Unit {0}

-- Wherever the action ends well, it gives `a`.
pub record Gives {A : Type 0} (a : A) (m : M A) : Type 0 where
  pub at : (s : Session) → Given a (m s)

Given-bind :
    {A B : Type 0} (b : B) (r : Result (A × Session)) (f : A → M B)
    → ((a : A) → Gives b (f a))
    → Given b (elim r [ ok (a, s) ↦ f a s | fault e ↦ fault e ])
Given-bind b (ok (a, s)) f k = (k a).at s
Given-bind b (fault e) f k = tt

pub Gives-bind :
    {A B : Type 0} {b : B} (m : M A) (f : A → M B) → ((a : A) → Gives b (f a)) → Gives b (m >>= f)
unfolding ◌>>=◌
Gives-bind {b = b} m f k = record { at = λ s. Given-bind b (m s) f k }

pub Gives-pure : {A : Type 0} (a : A) → Gives a (pure a)
unfolding pure
Gives-pure a = record { at = λ s. refl }

pub Gives-raise : {A : Type 0} (a : A) (e : Fault.Fault) → Gives a (raise e)
unfolding raise
Gives-raise a e = record { at = λ s. tt }

Given-map :
    {A B : Type 0} (a : A) (r : Result (A × Session)) (f : A → B)
    → Given a r
    → Given (f a) (elim r [ ok (b, s) ↦ ok (f b, s) | fault e ↦ fault e ])
Given-map a (ok (b, s)) f h = ap f h
Given-map a (fault e) f h = tt

pub Gives-map :
    {A B : Type 0} {a : A} (m : M A) (f : A → B) → Gives a m → Gives (f a) (m >>= λ b. pure (f b))
unfolding ◌>>=◌ pure
Gives-map {a = a} m f k = record { at = λ s. Given-map a (m s) f (k.at s) }

ruleset gives_rules = (Gives-bind, Gives-pure)

pub execute-Gives :
    (l : LuaState) (ar : Activation) (c : Command) (cmd rest : Bytes)
    → Gives (not (resumes c)) (execute l ar c cmd rest)
unfolding execute run_var run_suspend run_list run_set_break run_clear_break run_display run_step
    run_continue run_print run_quit run_unknown
execute-Gives l ar Command.get_globals cmd rest = search gives_rules
execute-Gives l ar Command.data_for_ide cmd rest = search gives_rules
execute-Gives l ar Command.var_for_ide cmd rest = search gives_rules
execute-Gives l ar Command.stack_for_ide cmd rest = search gives_rules
execute-Gives l ar Command.suspend cmd rest = search gives_rules
execute-Gives l ar Command.list cmd rest = search gives_rules
execute-Gives l ar Command.set_break cmd rest = search gives_rules
execute-Gives l ar Command.clear_break cmd rest = search gives_rules
execute-Gives l ar Command.display cmd rest = search gives_rules
execute-Gives l ar Command.assign cmd rest = search gives_rules
execute-Gives l ar Command.step cmd rest = search gives_rules
execute-Gives l ar Command.continue cmd rest = search gives_rules
execute-Gives l ar Command.print cmd rest = search gives_rules
execute-Gives l ar Command.quit cmd rest = search gives_rules
execute-Gives l ar Command.help cmd rest = search gives_rules
execute-Gives l ar Command.unknown cmd rest = search gives_rules
