-- ===== src/Session/Keeps.antt =====
-- What every action leaves alone and what it orders, and a rule for each way to build an action.
pub mod Steps
pub use lua_eclipse_ide.Session.Keeps.Steps.{
  IsValid, Steady, Steady-IsValid, Steady-refl, Steady-trans, SteadyResult, SteadyResult-trans,
  Steady-fields, SteadyResult-same, Steady-unseen, Steady-assigned, Steady-stored,
}
use lua_eclipse_ide.Base.{
  ℕ, ◌+◌, Bytes, ◌++◌, List, [], ◌∷◌, Bool, true, false, if◌then◌else◌, ◌≡◌, inl, inr, refl, sym,
  ◌∙◌, Bool-cases, append-nil, append_assoc, ap,
}
use lua_eclipse_ide.Fault.{Result, ok, fault}
use lua_eclipse_ide.Fault
use lua_eclipse_ide.Session.{
  DebuggerType, ldb, ide, Output, console, command, event, Session, M, ◌>>=◌, pure, lift, raise,
  gets, print, send, answer, at_prompt_or_ide, by_kind, stepping, continuing, set_state,
}
use lua_eclipse_ide.Breakpoints.{Breakpoints}
use lua_eclipse_ide.Session.Orders.{
  tell, tell_ide, tell_each, tell_ide_ldb, tell_ide_ide, events, view-unseen, view-event, Debugger,
  Order, view, obey_all, obey_all-append, IsMode, obey_all-IsMode, to_step, to_continue,
}

-- Wherever the action ends well, it has been steady.
pub record Keeps {A : Type 0} (os : List Order) (m : M A) : Type 0 where
  pub at : (s : Session) → SteadyResult os s (m s)

SteadyResult-bind :
    {A B : Type 0} (os ps : List Order) (s : Session) (r : Result (A × Session)) (f : A → M B)
    → SteadyResult os s r
    → ((a : A) → Keeps ps (f a))
    → SteadyResult (os ++ ps) s (elim r [ ok (a, s') ↦ f a s' | fault e ↦ fault e ])
SteadyResult-bind os ps s (fault e) f h k = tt
SteadyResult-bind os ps s (ok (a, s')) f h k = SteadyResult-trans os ps (f a s') h ((k a).at s')

pub Keeps-then :
    {A B : Type 0} {os ps : List Order} (m : M A) (f : A → M B)
    → Keeps os m
    → ((a : A) → Keeps ps (f a))
    → Keeps (os ++ ps) (m >>= f)
unfolding ◌>>=◌
Keeps-then {os} {ps} m f km kf = record { at = λ s. SteadyResult-bind os ps s (m s) f (km.at s) kf }

-- The orders come from what follows the first action.
pub Keeps-bind :
    {A B : Type 0} {os : List Order} (m : M A) (f : A → M B)
    → Keeps [] m
    → ((a : A) → Keeps os (f a))
    → Keeps os (m >>= f)
Keeps-bind m f km kf = Keeps-then m f km kf

-- The orders come from the first action.
pub Keeps-bind_first :
    {A B : Type 0} {os : List Order} (m : M A) (f : A → M B)
    → Keeps os m
    → ((a : A) → Keeps [] (f a))
    → Keeps os (m >>= f)
Keeps-bind_first {os} m f km kf = rw (sym (append-nil os)) (Keeps-then m f km kf)

pub Keeps-pure : {A : Type 0} (a : A) → Keeps [] (pure a)
unfolding pure
Keeps-pure a = record { at = Steady-refl }

pub Keeps-raise : {A : Type 0} {os : List Order} (e : Fault.Fault) → Keeps os (raise {A = A} e)
unfolding raise
Keeps-raise e = record { at = λ s. tt }

pub Keeps-gets : {A : Type 0} (f : Session → A) → Keeps [] (gets f)
unfolding gets
Keeps-gets f = record { at = Steady-refl }

pub Keeps-lift : {A : Type 0} (r : Result A) → Keeps [] (lift r)
unfolding lift
Keeps-lift (ok a) = record { at = Steady-refl }
Keeps-lift (fault e) = record { at = λ s. tt }

pub Keeps-if :
    {A : Type 0} {os : List Order} (b : Bool) (m n : M A)
    → Keeps os m
    → Keeps os n
    → Keeps os (if b then m else n)
Keeps-if true m n km kn = km
Keeps-if false m n km kn = kn

pub Keeps-print : (text : Bytes) → Keeps [] (print text)
unfolding print
Keeps-print text = record { at = λ s. Steady-unseen s (console text) s.sent refl }

Keeps-sent :
    (os : List Order) (out : Output)
    → ((s : Session) → Steady os s (record s { sent = s.sent + 1; trace = s.trace ++ out ∷ [] }))
    → Keeps os (send out)
unfolding send
Keeps-sent os out k = record {
  at = λ s. elim (Bool-cases (s.send_ok s.sent)) [
    | inl sent ↦ rw sent (k s)
    | inr failed ↦ rw failed tt
  ];
}

pub Keeps-send-command : (text : Bytes) → Keeps [] (send (command text))
Keeps-send-command text =
    Keeps-sent [] (command text) (λ s. Steady-unseen s (command text) (s.sent + 1) refl)

pub Keeps-send-event : (text : Bytes) → Keeps (tell text ∷ []) (send (event text))
Keeps-send-event text = Keeps-sent (tell text ∷ []) (event text) (λ s.
    Steady-fields (tell text ∷ []) s _ (event text ∷ []) refl refl refl refl refl
      (view-event s text (s.sent + 1)))

pub Keeps-at_prompt_or_ide :
    {os : List Order} (m n : M (Unit {0}))
    → Keeps os m
    → Keeps os n
    → Keeps os (at_prompt_or_ide m n)
unfolding at_prompt_or_ide
Keeps-at_prompt_or_ide {os} m n km kn = record { at = λ s. by_kind_case s s.kind }
  where
    by_kind_case : (s : Session) (k : DebuggerType) → SteadyResult os s (by_kind k m n s)
    by_kind_case s ldb = km.at s
    by_kind_case s ide = kn.at s

-- Events for the environment: at the prompt there is none to tell.
pub Keeps-tell_ide :
    (texts : List Bytes) (m n : M (Unit {0}))
    → Keeps [] m
    → Keeps (tell_each texts) n
    → Keeps (tell_ide texts ∷ []) (at_prompt_or_ide m n)
unfolding at_prompt_or_ide
Keeps-tell_ide texts m n km kn = record { at = λ s. case_kind s s.kind refl }
  where
    case_kind :
        (s : Session) (k : DebuggerType)
        → s.kind ≡ k
        → SteadyResult (tell_ide texts ∷ []) s (by_kind k m n s)
    case_kind s ldb e =
        SteadyResult-same [] (tell_ide texts ∷ []) s (m s) (sym (tell_ide_ldb texts (view s) e))
          (km.at s)
    case_kind s ide e =
        SteadyResult-same (tell_each texts) (tell_ide texts ∷ []) s (n s)
          (sym (tell_ide_ide texts (view s) e)) (kn.at s)

pub Keeps-set_state-stepping : Keeps (to_step ∷ []) (set_state stepping)
unfolding set_state
Keeps-set_state-stepping = record {
  at = λ s. Steady-assigned (to_step ∷ []) s stepping s.breakpoints refl;
}

pub Keeps-set_state-continuing : Keeps (to_continue ∷ []) (set_state continuing)
unfolding set_state
Keeps-set_state-continuing = record {
  at = λ s. Steady-assigned (to_continue ∷ []) s continuing s.breakpoints refl;
}

pub ruleset keeps_rules = (
  Keeps-bind, Keeps-pure, Keeps-raise, Keeps-gets, Keeps-lift, Keeps-if, Keeps-print,
  Keeps-send-command, Keeps-at_prompt_or_ide,
)

pub Keeps-answer : (text : Bytes) → Keeps [] (answer text)
unfolding answer
Keeps-answer text = search keeps_rules
