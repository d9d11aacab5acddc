-- ===== src/Startup/Main/Quiet.antt =====
-- The actions of `main` that only write (open-ldb/LuaDebugger.cpp): an exception of the event socket is
-- caught.
use lua_eclipse_ide.Base.{
  ℕ, List, [], ◌∷◌, ◌++◌, Bytes, codes, ℤ, Bool, true, false, ◌≡◌, refl, sym, ap, ◌∙◌, Bool-cases,
  ◌+◌, inl, inr,
}
use lua_eclipse_ide.Fault.{ok, socket_exception}
use lua_eclipse_ide.Session.{
  DebuggerType, ldb, ide, event, console, Session, M, ◌>>=◌, ◌>>◌, pure, raise, print, send,
  at_prompt_or_ide, by_kind,
}
use lua_eclipse_ide.Session.Orders.{
  Order, tell, tell_ide, tell_each, tell_ide_ldb, tell_ide_ide, view, view-unseen, view-event,
  obey_all, obey_all-append,
}
use lua_eclipse_ide.Net.Server.{Thrown, throws, returns}
use lua_eclipse_ide.Startup.Args.{Settings}
use lua_eclipse_ide.Startup.Main.{
  Connections, greet, exiting, connected, recover, caught, start_ide,
}

-- The kind of debugger, the listings, the inputs and the sockets' behaviour stay; if no call of `send`
-- fails the debugger has obeyed the orders.
pub record Calm (os : List Order) (s t : Session) : Type 0 where
  pub kind : t.kind ≡ s.kind
  pub scripts : t.scripts ≡ s.scripts
  pub inputs : t.inputs ≡ s.inputs
  pub send_ok : t.send_ok ≡ s.send_ok
  pub obeyed : ((n : ℕ) → s.send_ok n ≡ true) → view t ≡ obey_all os (view s)

pub Calm-refl : (s : Session) → Calm [] s s
Calm-refl s = record {
  kind = refl;
  scripts = refl;
  inputs = refl;
  send_ok = refl;
  obeyed = λ h. refl;
}

pub Calm-trans :
    {os ps : List Order} {s t u : Session} → Calm os s t → Calm ps t u → Calm (os ++ ps) s u
Calm-trans {os} {ps} {s} p q = record {
  kind = q.kind ∙ p.kind;
  scripts = q.scripts ∙ p.scripts;
  inputs = q.inputs ∙ p.inputs;
  send_ok = q.send_ok ∙ p.send_ok;
  obeyed = λ sends.
      q.obeyed (λ n. ap (λ (f : ℕ → Bool). f n) p.send_ok ∙ sends n)
      ∙ ap (obey_all ps) (p.obeyed sends)
      ∙ sym (obey_all-append os ps (view s));
}

-- Orders that come to the same.
Calm-same :
    {os ps : List Order} {s t : Session}
    → Calm os s t
    → obey_all os (view s) ≡ obey_all ps (view s)
    → Calm ps s t
Calm-same k e = record {
  kind = k.kind;
  scripts = k.scripts;
  inputs = k.inputs;
  send_ok = k.send_ok;
  obeyed = λ sends. k.obeyed sends ∙ e;
}

-- The action ends well, and has changed nothing but the output.
pub record Quiet (os : List Order) (m : M (Unit {0})) : Type 0 where
  pub at : (s : Session) → (t : Session) × (m s ≡ ok (tt, t)) × Calm os s t

pub Quiet-pure : Quiet [] (pure tt)
unfolding pure
Quiet-pure = record { at = λ s. (s, refl, Calm-refl s) }

pub Quiet-then :
    {os ps : List Order} (m n : M (Unit {0})) → Quiet os m → Quiet ps n → Quiet (os ++ ps) (m >> n)
unfolding ◌>>=◌
Quiet-then m n p q = record {
  at = λ s.
      let (t, e, k) = p.at s in
      let (u, e', l) = q.at t in (u, rw (◌>>=◌, e, e') refl, Calm-trans k l);
}

pub Quiet-print : (text : Bytes) → Quiet [] (print text)
unfolding print
Quiet-print text = record {
  at = λ s. (
    _,
    refl,
    record {
      kind = refl;
      scripts = refl;
      inputs = refl;
      send_ok = refl;
      obeyed = λ h. view-unseen s (console text) s.sent refl;
    },
  );
}

Quiet-exiting : (text why : Bytes) → Quiet [] (exiting text why)
Quiet-exiting text why = Quiet-print _

-- Events for the environment.
pub Quiet-tell_ide :
    (texts : List Bytes) (m n : M (Unit {0}))
    → Quiet [] m
    → Quiet (tell_each texts) n
    → Quiet (tell_ide texts ∷ []) (at_prompt_or_ide m n)
unfolding at_prompt_or_ide
Quiet-tell_ide texts m n p q = record { at = λ s. of_kind s s.kind refl }
  where
    of_kind :
        (s : Session) (k : DebuggerType)
        → s.kind ≡ k
        → (t : Session) × (by_kind k m n s ≡ ok (tt, t)) × Calm (tell_ide texts ∷ []) s t
    of_kind s ldb e =
        let (t, e', k) = p.at s in (t, e', Calm-same k (sym (tell_ide_ldb texts (view s) e)))
    of_kind s ide e =
        let (t, e', k) = q.at s in (t, e', Calm-same k (sym (tell_ide_ide texts (view s) e)))

pub Quiet-greet : (o : Settings) (name : Bytes) → Quiet [] (greet o name)
unfolding greet
Quiet-greet o name = Quiet-then _ _ (Quiet-print _) (
    Quiet-then _ _ (Quiet-print _) (
      Quiet-then _ _ (Quiet-print _)
        (Quiet-then _ _ (Quiet-print _) (Quiet-then _ _ (Quiet-print _) (Quiet-print _)))))

Quiet-connected :
    (port : ℤ) (text : Bytes) (x : Thrown (Unit {0})) → Quiet [] (connected port text x)
unfolding connected
Quiet-connected port text (returns _) = Quiet-print _
Quiet-connected port text (throws why) = Quiet-exiting text why

-- An exception of the event socket is caught.
pub Quiet-caught :
    (text event_text : Bytes) → Quiet (tell event_text ∷ []) (caught text (send (event event_text)))
unfolding caught send
Quiet-caught text event_text = record {
  at = λ s. elim (Bool-cases (s.send_ok s.sent)) [
    | inl sent ↦ rw sent (
      _,
      refl,
      record {
        kind = refl;
        scripts = refl;
        inputs = refl;
        send_ok = refl;
        obeyed = λ h. view-event s event_text (s.sent + 1);
      },
    )
    | inr failed ↦ rw failed (
        let (t, e, k) =
          (Quiet-exiting text (codes "Could not write to socket.")).at
            (record s { sent = s.sent + 1 }) in
        (
          t,
          e,
          record {
            kind = k.kind;
            scripts = k.scripts;
            inputs = k.inputs;
            send_ok = k.send_ok;
            obeyed = λ sends. absurd (unequal (sends s.sent) failed);
          },
        ))
  ];
}
  where
    unequal : {b : Bool} → b ≡ true → b ≡ false → ⊥
    unequal h k = cc

-- At the prompt the event socket is invalid, and the exception is caught.
pub Quiet-caught_ide :
    (text event_text : Bytes)
    → Quiet
        (tell_ide (event_text ∷ []) ∷ [])
        (caught text (at_prompt_or_ide (raise socket_exception) (send (event event_text))))
unfolding caught at_prompt_or_ide raise
Quiet-caught_ide text event_text = record { at = λ s. of_kind s s.kind refl }
  where
    of_kind :
        (s : Session) (k : DebuggerType)
        → s.kind ≡ k
        → (t : Session) × (recover text s
              (by_kind k (raise socket_exception) (send (event event_text)) s)
            ≡ ok (tt, t))
          × Calm (tell_ide (event_text ∷ []) ∷ []) s t
    of_kind s ldb e =
        let (t, e', k) =
          (Quiet-exiting text (codes "Could not write to socket.")).at
            (record s { sent = s.sent + 1 }) in
        (
          t,
          e',
          Calm-same {os = []}
              (record {
                kind = k.kind;
                scripts = k.scripts;
                inputs = k.inputs;
                send_ok = k.send_ok;
                obeyed = k.obeyed;
              })
              (sym (tell_ide_ldb (event_text ∷ []) (view s) e)),
        )
    of_kind s ide e =
        let (t, e', k) = (Quiet-caught text event_text).at s in
        (t, e', Calm-same k (sym (tell_ide_ide (event_text ∷ []) (view s) e)))

-- What the environment is told first.
abbrev pub started : List Bytes
started = codes "started\n" ∷ []

pub Quiet-start_ide : (o : Settings) (c : Connections) → Quiet (tell_each started) (start_ide o c)
unfolding start_ide
Quiet-start_ide o c =
    Quiet-then _ _ (Quiet-connected _ _ c.commands)
      (Quiet-then _ _ (Quiet-connected _ _ c.events) (Quiet-caught _ _))
