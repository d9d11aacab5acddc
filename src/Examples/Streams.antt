-- ===== src/Examples/Streams.antt =====
-- A stream that comes in two blocks (open-ldb/lzio.c).
use lua_eclipse_ide.Base.{[], ◌∷◌, ◌++◌, Bytes, some, ◌≡◌, refl}
use lua_eclipse_ide.Lua.Stream.{
  fill, lookahead, read_loop, read, init, Caller, done, ask, run_calls,
}
use lua_eclipse_ide.Lua.Stream.Refines.{forget, run_bytes, run_calls-stream}

abbrev two_asks : Caller Bytes
two_asks = ask 2 (λ a. ask 1 (λ b. done (b ++ a)))

run_two_asks :
    run_calls two_asks (init ((27 ∷ []) ∷ (76 ∷ 117 ∷ 97 ∷ []) ∷ []))
    ≡ some (117 ∷ 27 ∷ 76 ∷ [], record { unread = 97 ∷ []; blocks = [] })
unfolding run_calls read read_loop lookahead fill
run_two_asks = refl

run_calls-stream_example :
    forget (run_calls two_asks (init ((27 ∷ []) ∷ (76 ∷ 117 ∷ 97 ∷ []) ∷ [])))
    ≡ run_bytes two_asks (27 ∷ 76 ∷ 117 ∷ 97 ∷ [])
run_calls-stream_example = run_calls-stream two_asks (init ((27 ∷ []) ∷ (76 ∷ 117 ∷ 97 ∷ []) ∷ []))
