-- ===== src/Session/Works.antt =====
-- Actions that do not end the process while the sockets work, and a rule for each way to build one.
use lua_eclipse_ide.Base.{ℕ, Bytes, Bool, true, false, if◌then◌else◌, ◌≡◌, ◌∙◌, ap, sym}
use lua_eclipse_ide.Fault.{Result, ok, fault}
use lua_eclipse_ide.Breakpoints.{Breakpoints}
use lua_eclipse_ide.Source.{SourceLines}
use lua_eclipse_ide.Session.{
  DebuggerType, ldb, ide, Output, Session, M, ◌>>=◌, pure, lift, gets, print, send, answer,
  at_prompt_or_ide, by_kind, set_state, store_breakpoints,
}

-- No call of `send` fails, and the listings are these.
pub record SendsWell (scripts : SourceLines) (s : Session) : Type 0 where
  pub each : (n : ℕ) → s.send_ok n ≡ true
  pub listed : s.scripts ≡ scripts

pub SendsWell-same :
    {scripts : SourceLines} {s t : Session}
    → t.send_ok ≡ s.send_ok
    → t.scripts ≡ s.scripts
    → SendsWell scripts s
    → SendsWell scripts t
SendsWell-same e f h = record {
  each = λ n. ap (λ (sends : ℕ → Bool). sends n) e ∙ h.each n;
  listed = f ∙ h.listed;
}

abbrev pub Worked : {A : Type 0} → SourceLines → Result (A × Session) → Type 0
Worked scripts (ok (a, t)) = SendsWell scripts t
Worked scripts (fault e) = ⊥

pub record Works {A : Type 0} (scripts : SourceLines) (m : M A) : Type 0 where
  pub at : (s : Session) → SendsWell scripts s → Worked scripts (m s)

module _ {scripts : SourceLines} where
  Worked-bind :
      {A B : Type 0} (r : Result (A × Session)) (f : A → M B)
      → Worked scripts r
      → ((a : A) → Works scripts (f a))
      → Worked scripts (elim r [ ok (a, s) ↦ f a s | fault e ↦ fault e ])
  Worked-bind (ok (a, s)) f h k = (k a).at s h
  Worked-bind (fault e) f h k = absurd h

  pub Works-bind :
      {A B : Type 0} (m : M A) (f : A → M B)
      → Works scripts m
      → ((a : A) → Works scripts (f a))
      → Works scripts (m >>= f)
  unfolding ◌>>=◌
  Works-bind m f km kf = record { at = λ s h. Worked-bind (m s) f (km.at s h) kf }

  pub Works-pure : {A : Type 0} (a : A) → Works scripts (pure a)
  unfolding pure
  Works-pure a = record { at = λ s h. h }

  pub Works-gets : {A : Type 0} (f : Session → A) → Works scripts (gets f)
  unfolding gets
  Works-gets f = record { at = λ s h. h }

  -- What follows is only run on the listings.
  pub Works-gets_listed :
      {A B : Type 0} (g : SourceLines → A) (f : A → M B)
      → Works scripts (f (g scripts))
      → Works scripts (gets (λ s. g s.scripts) >>= f)
  unfolding gets ◌>>=◌
  Works-gets_listed g f k = record {
    at = λ s h.
        let same : f (g scripts) s ≡ f (g s.scripts) s = ap (λ all. f (g all) s) (sym h.listed) in
        rw (sym same) (k.at s h);
  }

  pub Works-lift : {A : Type 0} (a : A) (r : Result A) → r ≡ ok a → Works scripts (lift r)
  unfolding lift
  Works-lift a r e = record { at = λ s h. rw e h }

  -- What follows is only run on what has been computed.
  pub Works-lift_then :
      {A B : Type 0} (a : A) (r : Result A) (f : A → M B)
      → r ≡ ok a
      → Works scripts (f a)
      → Works scripts (lift r >>= f)
  unfolding lift ◌>>=◌
  Works-lift_then a r f e k = record { at = λ s h. rw e (k.at s h) }

  pub Works-if :
      {A : Type 0} (b : Bool) (m n : M A)
      → Works scripts m
      → Works scripts n
      → Works scripts (if b then m else n)
  Works-if true m n km kn = km
  Works-if false m n km kn = kn

  pub Works-print : (text : Bytes) → Works scripts (print text)
  unfolding print
  Works-print text = record { at = λ s h. record { each = h.each; listed = h.listed } }

  pub Works-send : (out : Output) → Works scripts (send out)
  unfolding send
  Works-send out = record {
    at = λ s h. rw (h.each s.sent) (record { each = h.each; listed = h.listed });
  }

  pub Works-at_prompt_or_ide :
      (m n : M (Unit {0}))
      → Works scripts m
      → Works scripts n
      → Works scripts (at_prompt_or_ide m n)
  unfolding at_prompt_or_ide
  Works-at_prompt_or_ide m n km kn = record { at = λ s h. by_kind_case s s.kind h }
    where
      by_kind_case :
          (s : Session) (k : DebuggerType) → SendsWell scripts s → Worked scripts (by_kind k m n s)
      by_kind_case s ldb h = km.at s h
      by_kind_case s ide h = kn.at s h

  pub Works-set_state : (n : ℕ) → Works scripts (set_state n)
  unfolding set_state
  Works-set_state n = record { at = λ s h. record { each = h.each; listed = h.listed } }

  pub Works-store_breakpoints : (all : Breakpoints) → Works scripts (store_breakpoints all)
  unfolding store_breakpoints
  Works-store_breakpoints all = record { at = λ s h. record { each = h.each; listed = h.listed } }

pub ruleset works_rules = (
  Works-bind, Works-pure, Works-gets, Works-lift, Works-if, Works-print, Works-send,
  Works-at_prompt_or_ide, Works-set_state, Works-store_breakpoints,
)

pub Works-answer : {scripts : SourceLines} (text : Bytes) → Works scripts (answer text)
unfolding answer
Works-answer text = search works_rules
