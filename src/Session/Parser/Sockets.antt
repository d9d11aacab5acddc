-- ===== src/Session/Parser/Sockets.antt =====
-- How `commandParser` of open-ldb/LuaDebugger.cpp reads a command through `ServerSocket::operator >>`
-- (open-ldb/ServerSocket.cpp), over the calls of the operating system; and that a session's list of
-- inputs stands for what those calls give.
use lua_eclipse_ide.Base.{
  ℕ, zero, suc, ◌+◌, ◌≤◌, ◌<◌, Bytes, List, [], ◌∷◌, ◌++◌, Option, none, some, Bool, true, false, ℤ,
  pos, eq_int, take, leb, if◌then◌else◌, ◌≡◌, refl, sym, ap, ◌∙◌, arith, Bool-cases, inl, inr,
}
use lua_eclipse_ide.Fault.{ok}
use lua_eclipse_ide.Text.{contains, cut_at}
use lua_eclipse_ide.LuaView.{c_str}
use lua_eclipse_ide.Net.{Os, recv, received, invalid, max_recv}
use lua_eclipse_ide.Net.Server.{Thrown, throws, returns, read, was_read}
use lua_eclipse_ide.Session.{Session, print, ◌>>=◌, pure}
use lua_eclipse_ide.Session.Parser.{
  Reading, command_text, no_command, exception, gather, gathered, first_piece, receive,
  receive_command,
}
use lua_eclipse_ide.Session.Parser.Taken.{gather_done, five_not}

-- An exception is the end of an input, or a call that fails.
abbrev pub input_of : Thrown Bytes → Option Bytes
input_of (throws why) = none
input_of (returns text) = some text

c_str_nil : c_str [] ≡ []
unfolding c_str cut_at
c_str_nil = refl

cut_at_twice : (c : ℕ) (s : Bytes) → cut_at c (cut_at c s) ≡ cut_at c s
unfolding cut_at
cut_at_twice c [] = refl
cut_at_twice c (d ∷ s) = ground (arith, cut_at_twice c s)

c_str_twice : (s : Bytes) → c_str (c_str s) ≡ c_str s
unfolding c_str
c_str_twice s = cut_at_twice 0 s

five_reached : (count : ℕ) → count + 0 ≡ 5 → leb 5 count ≡ true
five_reached count e = ground arith

-- What has been read does not depend on the messages.
gathered_reading :
    (g : Reading × List (Option Bytes)) (s : Session)
    → (t : Session) × (gathered g s ≡ ok (g.0, t)) × (t.inputs ≡ g.1)
unfolding ◌>>=◌ print pure
gathered_reading (command_text text true, inputs) s = (_, refl, refl)
gathered_reading (command_text text false, inputs) s = (_, refl, refl)
gathered_reading (no_command, inputs) s = (_, refl, refl)
gathered_reading (exception, inputs) s = (_, refl, refl)

module _ {ℓ} {W : Type ℓ} (os : Os W) (sock : ℤ) where
  -- What the next calls of `operator >>` give.
  pub inputs_from : ℕ → W → List (Option Bytes)
  unfolding read
  inputs_from zero w = []
  inputs_from (suc n) w = input_of (read os sock w).0 ∷ inputs_from n (read os sock w).1

  abbrev one_more : (Bytes → W → Reading × W) → Bytes → Thrown Bytes × W → Reading × W
  one_more go_on text (throws why, w) = (exception, w)
  one_more go_on text (returns piece, w) = go_on (text ++ piece) w

  -- `while (found == npos)`, with as many pieces still to come before the code gives up.
  unfoldable pub gather_from : ℕ → Bytes → W → Reading × W
  unfolding read
  gather_from zero text w =
      if contains b'\n' text
      then (command_text text true, w)
      else one_more (λ all v. (command_text all false, v)) text (read os sock w)
  gather_from (suc n) text w =
      let later = one_more (gather_from n) text (read os sock w) in
      if contains b'\n' text then (command_text text true, w) else later

  abbrev gather_first : Thrown Bytes × W → Reading × W
  gather_first (throws why, w) = (exception, w)
  gather_first (returns [], w) = (no_command, w)
  gather_first (returns (c ∷ text), w) = gather_from 5 (c ∷ text) w

  unfoldable pub receive_from : W → Reading × W
  unfolding gather_from read
  receive_from w = gather_first (read os sock w)

  -- What is read has no zero byte.
  abbrev IsText : Thrown Bytes → Type 0
  IsText (throws why) = Unit {0}
  IsText (returns text) = c_str text ≡ text

  text_if :
      (b : Bool) (x y : ℤ × Bytes × W)
      → c_str x.1 ≡ x.1
      → c_str y.1 ≡ y.1
      → c_str (if b then x else y).1 ≡ (if b then x else y).1
  text_if true x y h k = h
  text_if false x y h k = k

  received_text : (r : ℤ × Bytes × W) → c_str (received os r).1 ≡ (received os r).1
  received_text (status, bytes, w) =
      text_if (eq_int status invalid) _ _ c_str_nil
        (text_if (eq_int status (pos 0)) _ _ c_str_nil (c_str_twice (take max_recv bytes)))

  was_read-IsText : (r : ℤ × Bytes × W) → c_str r.1 ≡ r.1 → IsText (was_read os r).0
  was_read-IsText (status, text, w) h = elim (Bool-cases (eq_int status (pos 0))) [
    | inl none_read ↦ rw none_read tt
    | inr some_read ↦ rw some_read h
  ]

  read-IsText : (w : W) → IsText (read os sock w).0
  unfolding read recv
  read-IsText w = was_read-IsText _ (received_text (os.recv sock max_recv w))

  -- The list of inputs, read to a place, and the calls, made so far.
  abbrev Gathers : ℕ → ℕ → Reading × W → Reading × List (Option Bytes) → Type 0
  Gathers k n r g = (m : ℕ) × (g ≡ (r.0, inputs_from m r.1)) × (k ≤ m + n)

  one_more-Gathers :
      (go_on : Bytes → W → Reading × W) (count n k : ℕ) (text : Bytes) (x : Thrown Bytes) (w : W)
      → contains b'\n' text ≡ false
      → IsText x
      → ((piece : Bytes)
          → Gathers k n (go_on (text ++ piece) w) (
              if leb 5 count
              then (command_text (text ++ piece) false, inputs_from k w)
              else gather (count + 1) (text ++ piece) (inputs_from k w)))
      → Gathers
          (suc k)
          (suc n)
          (one_more go_on text (x, w))
          (gather count text (input_of x ∷ inputs_from k w))
  unfolding gather
  one_more-Gathers go_on count n k text (throws why) w missing is_text h =
      (k, rw missing refl, omega arith)
  one_more-Gathers go_on count n k text (returns piece) w missing is_text h =
      let (m, e, bound) = h piece in (m, rw (missing, is_text) e, omega arith)

  gather-Gathers :
      (n count k : ℕ) (text : Bytes) (w : W)
      → count + n ≡ 5
      → n < k
      → Gathers k (suc n) (gather_from n text w) (gather count text (inputs_from k w))
  unfolding gather_from inputs_from
  gather-Gathers n count zero text w e h = absurd (omega arith)
  gather-Gathers zero count (suc k) text w e h = elim (Bool-cases (contains b'\n' text)) [
    | inl there ↦
        rw (there, gather_done count text (inputs_from (suc k) w) there) (suc k, refl, omega arith)
    | inr missing ↦ rw missing (
        one_more-Gathers (λ all v. (command_text all false, v)) count 0 k text (read os sock w).0
          (read os sock w).1 missing (read-IsText w)
          (λ piece. rw (five_reached count e) (k, refl, omega arith)))
  ]
  gather-Gathers (suc n) count (suc k) text w e h = elim (Bool-cases (contains b'\n' text)) [
    | inl there ↦
        rw (there, gather_done count text (inputs_from (suc k) w) there) (suc k, refl, omega arith)
    | inr missing ↦ rw missing (
        one_more-Gathers (gather_from n) count (suc n) k text (read os sock w).0 (read os sock w).1
          missing (read-IsText w)
          (λ piece. rw (five_not n count e) (
            gather-Gathers n (count + 1) k (text ++ piece) (read os sock w).1 (omega arith)
              (omega arith))))
  ]

  receive_first :
      (k : ℕ) (x : Thrown Bytes) (w : W) (s : Session)
      → 5 < k
      → IsText x
      → (m : ℕ) × (t : Session) × (receive (input_of x ∷ inputs_from k w) s
          ≡ ok ((gather_first (x, w)).0, t))
        × (t.inputs ≡ inputs_from m (gather_first (x, w)).1)
        × (k ≤ m + 6)
  unfolding ◌>>=◌ print pure
  receive_first k (throws why) w s h is_text = (k, _, refl, refl, omega arith)
  receive_first k (returns text) w s h is_text = rw is_text (whole text)
    where
      whole :
          (text : Bytes)
          → (m : ℕ) × (t : Session) × (first_piece text (inputs_from k w) s
              ≡ ok ((gather_first (returns text, w)).0, t))
            × (t.inputs ≡ inputs_from m (gather_first (returns text, w)).1)
            × (k ≤ m + 6)
      whole [] = (k, _, refl, refl, omega arith)
      whole (c ∷ text) =
          let (m, e, bound) = gather-Gathers 5 0 k (c ∷ text) w (omega arith) h in
          let (t, e', left) = gathered_reading (gather 0 (c ∷ text) (inputs_from k w)) s in
          (
            m,
            t,
            rw (sym (ap (λ (g : Reading × List (Option Bytes)). g.0) e)) e',
            left ∙ ap (λ (g : Reading × List (Option Bytes)). g.1) e,
            bound,
          )

  -- Reading a command in a session whose inputs are what at least seven calls of `operator >>` give is
  -- reading it with those calls: the same command, no command or an exception, and what is left of the
  -- inputs is what the calls behind those give that were made, seven at most.
  pub receive_command-receive_from :
      (k : ℕ) (w : W) (s : Session)
      → 6 < k
      → s.inputs ≡ inputs_from k w
      → (m : ℕ) × (t : Session) × (receive_command s ≡ ok ((receive_from w).0, t))
        × (t.inputs ≡ inputs_from m (receive_from w).1)
        × (k ≤ m + 7)
  unfolding receive_command receive_from inputs_from
  receive_command-receive_from zero w s h e = absurd (omega arith)
  receive_command-receive_from (suc k) w s h e =
      let (m, t, read_so, left, bound) =
        receive_first k (read os sock w).0 (read os sock w).1 s (omega arith) (read-IsText w) in
      (m, t, ap (λ inputs. receive inputs s) e ∙ read_so, left, omega arith)
