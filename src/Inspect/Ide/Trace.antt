-- ===== src/Inspect/Ide/Trace.antt =====
-- The exact answer of `ideStackTrace`.
use lua_eclipse_ide.Base.{
  ℕ, zero, suc, ◌≤◌, Bytes, ◌++◌, codes, List, [], ◌∷◌, Bool, true, false, if◌then◌else◌, length,
  eq_bytes, ℤ, pos, ◌&&◌, get_elem?_below, take, take-suc, take-length, ◌≡◌, refl, ◌∙◌, ap, sym,
  arith, append_assoc, append-nil, ltb, Bool-cases, inl, inr,
}
use lua_eclipse_ide.Fault.{Result, ok, fault, overflow, ◌>>=◌, sprintf}
use lua_eclipse_ide.Fault.Buffers.{buffer_laws, bind_assoc, bind_ok, sprintf_then_overflow}
use lua_eclipse_ide.Text.{show_int}
use lua_eclipse_ide.Text.Print.{length-show_nat}
use lua_eclipse_ide.LuaView.{LuaValue, Frame, LuaState, get_stack}
use lua_eclipse_ide.Inspect.Ide.{
  trace_size, trace_locals, function_name, line_text, trace_frame, trace_levels, ide_stack_trace,
  trace_level,
}

abbrev local_names : List (Bytes × LuaValue) → Bytes
local_names [] = []
local_names ((name, v) ∷ rest) =
    (if eq_bytes name (codes "(*temporary)") then [] else name ++ codes "|") ++ local_names rest

abbrev pub frame_text : Frame → Bytes
frame_text f =
    f.source
    ++ (codes "|"
        ++ (show_int f.current_line
            ++ (codes "|"
                ++ (function_name f.name f.name_what f.what f.source
                    ++ (codes "|" ++ (local_names f.locals ++ codes "#"))))))

trace_locals-local_names :
    (locals : List (Bytes × LuaValue)) (str : Bytes)
    → (sprintf trace_size str >>= trace_locals locals)
      ≡ sprintf trace_size (str ++ local_names locals)
unfolding trace_locals
trace_locals-local_names [] str = rw append-nil (bind_ok (sprintf trace_size str))
trace_locals-local_names ((name, v) ∷ rest) str =
    elim (Bool-cases (eq_bytes name (codes "(*temporary)"))) [
      | inl temporary ↦ rw (temporary, trace_locals) (trace_locals-local_names rest str)
      | inr named ↦
          rw (named, trace_locals)
            (simp buffer_laws
              (trace_locals-local_names rest (str ++ name ++ codes "|") ∙ simp append_assoc))
    ]

trace_locals_then :
    (locals : List (Bytes × LuaValue)) (str : Bytes) (k : Bytes → Result Bytes)
    → (sprintf trace_size str >>= λ g. trace_locals locals g >>= k)
      ≡ (sprintf trace_size (str ++ local_names locals) >>= k)
trace_locals_then locals str k =
    sym (bind_assoc (sprintf trace_size str) (trace_locals locals) k)
    ∙ ap (λ (m : Result Bytes). m >>= k) (trace_locals-local_names locals str)

-- `char number[4]` takes three characters of a line number.
abbrev pub line_fits : ℤ → Bool
line_fits line = ltb (length (show_int line)) 4

line_text-fits : (line : ℤ) → line_fits line ≡ true → line_text line ≡ ok (show_int line)
unfolding line_text sprintf
line_text-fits line h = rw h

line_text-overflows : (line : ℤ) → line_fits line ≡ false → line_text line ≡ fault overflow
unfolding line_text sprintf
line_text-overflows line h = rw h

trace_frame-frame_text :
    (f : Frame) (str : Bytes)
    → (sprintf trace_size str >>= trace_frame f) ≡ (
        if line_fits f.current_line
        then sprintf trace_size (str ++ frame_text f)
        else fault overflow)
unfolding trace_frame
trace_frame-frame_text f str = elim (Bool-cases (line_fits f.current_line)) [
  | inl fits ↦
      rw fits
        (simp (buffer_laws, line_text-fits f.current_line fits, trace_locals_then, append_assoc))
  | inr long ↦
      rw long (simp (buffer_laws, line_text-overflows f.current_line long, sprintf_then_overflow))
]

-- The outermost frame comes first.
abbrev pub trace_text : List Frame → Bytes
trace_text [] = []
trace_text (f ∷ frames) = trace_text frames ++ frame_text f

abbrev pub all_lines_fit : List Frame → Bool
all_lines_fit [] = true
all_lines_fit (f ∷ frames) = line_fits f.current_line && all_lines_fit frames

trace_text-append :
    (xs : List Frame) (f : Frame) → trace_text (xs ++ f ∷ []) ≡ frame_text f ++ trace_text xs
trace_text-append [] f = sym (append-nil (frame_text f))
trace_text-append (x ∷ xs) f =
    ap (λ (t : Bytes). t ++ frame_text x) (trace_text-append xs f)
    ∙ append_assoc (frame_text f) (trace_text xs) (frame_text x)

all_lines_fit-append :
    (xs : List Frame) (f : Frame)
    → all_lines_fit (xs ++ f ∷ []) ≡ (line_fits f.current_line && all_lines_fit xs)
all_lines_fit-append [] f = refl
all_lines_fit-append (x ∷ xs) f = ground (arith, all_lines_fit-append xs f)

abbrev whole_trace : List Frame → Bytes → Result Bytes
whole_trace frames str =
    if all_lines_fit frames then sprintf trace_size (str ++ trace_text frames) else fault overflow

whole_trace-append :
    (xs : List Frame) (f : Frame) (str : Bytes) (k : Bytes → Result Bytes)
    → (sprintf trace_size (str ++ frame_text f) >>= k) ≡ whole_trace xs (str ++ frame_text f)
    → (sprintf trace_size str >>= trace_frame f >>= k) ≡ whole_trace (xs ++ f ∷ []) str
whole_trace-append xs f str k ih =
    rw (trace_frame-frame_text, all_lines_fit-append, trace_text-append)
      (elim (Bool-cases (line_fits f.current_line)) [
        | inl fits ↦ rw fits (ih ∙ simp append_assoc)
        | inr long ↦ rw long
      ])

trace_levels-whole_trace :
    (l : LuaState) (n : ℕ) (str : Bytes)
    → n ≤ length l.frames
    → (sprintf trace_size str >>= trace_levels l n) ≡ whole_trace (take n l.frames) str
unfolding trace_levels sprintf get_stack
trace_levels-whole_trace l zero str h = rw append-nil (bind_ok (sprintf trace_size str))
trace_levels-whole_trace l (suc n) str h =
    let (f, found) = get_elem?_below n l.frames h in
    sym (bind_assoc (sprintf trace_size str) (trace_level (get_stack l (pos n))) (trace_levels l n))
    ∙ rw (found, take-suc n l.frames found)
        (whole_trace-append (take n l.frames) f str (trace_levels l n)
          (trace_levels-whole_trace l n (str ++ frame_text f) (omega arith)))

-- The exact answer of `ideStackTrace`: the frames' texts, the outermost first, where each line
-- number has three characters at most and the whole text is shorter than 2048 bytes; a write
-- behind the end of a buffer in every other case.
pub ide_stack_trace-trace_text :
    (l : LuaState)
    → ide_stack_trace l ≡ (
        if all_lines_fit l.frames && ltb (length (trace_text l.frames)) trace_size
        then ok (trace_text l.frames)
        else fault overflow)
unfolding ide_stack_trace sprintf
ide_stack_trace-trace_text l =
    trace_levels-whole_trace l (length l.frames) [] (omega arith)
    ∙ rw (take-length l.frames) (ground arith)

all_lines_fit-long :
    (xs : List Frame) (f : Frame) (ys : List Frame)
    → line_fits f.current_line ≡ false
    → all_lines_fit (xs ++ f ∷ ys) ≡ false
all_lines_fit-long [] f ys h = rw h
all_lines_fit-long (x ∷ xs) f ys h = ground (arith, all_lines_fit-long xs f ys h)

line_fits_thousand : (n : ℕ) → 1000 ≤ n → line_fits (pos n) ≡ false
unfolding show_int
line_fits_thousand n h = ground (arith, length-show_nat n h)

-- With a frame at line 1000 or later anywhere on the stack, `ideStackTrace` writes behind the end
-- of `char number[4]`.
pub ide_stack_trace_overflows :
    (l : LuaState) (xs ys : List Frame) (f : Frame) (n : ℕ)
    → l.frames ≡ xs ++ f ∷ ys
    → f.current_line ≡ pos n
    → 1000 ≤ n
    → ide_stack_trace l ≡ fault overflow
ide_stack_trace_overflows l xs ys f n e line h =
    let long : line_fits f.current_line ≡ false = rw line (line_fits_thousand n h) in
    ide_stack_trace-trace_text l
    ∙ ground (arith, all_lines_fit-long xs f ys long, ap all_lines_fit e)
