-- ===== src/Lua/Stream.antt =====
-- Input streams (open-ldb/lzio.c). A `ZIO` is the `n` bytes at `p` that are unread, and the blocks
-- that its reader is going to return, none of them for a null pointer.
pub mod Read
pub mod Refines
use lua_eclipse_ide.Base.{
  ℕ, zero, suc, ◌-◌, Bool, true, false, List, [], ◌∷◌, ◌++◌, Bytes, Option, none, some, length,
  take, drop, ltb, leb, ◌==◌, if◌then◌else◌,
}

pub record Zio : Type 0 where
  pub unread : Bytes
  pub blocks : List Bytes

-- `luaZ_init`
abbrev pub init : List Bytes → Zio
init blocks = record { unread = []; blocks = blocks }

-- The result is `none` for `EOZ`.
unfoldable pub fill : Zio → Option ℕ × Zio
fill z = first_of z.blocks
  where
    first_of : List Bytes → Option ℕ × Zio
    first_of [] = (none, z)
    first_of ([] ∷ rest) = (none, record z { blocks = rest })
    first_of ((c ∷ b) ∷ rest) = (some c, record { unread = b; blocks = rest })

-- The byte that `luaZ_fill` has taken is put back.
abbrev put_back : Option ℕ × Zio → Option ℕ × Zio
put_back (none, z) = (none, z)
put_back (some c, z) = (some c, record z { unread = c ∷ z.unread })

unfoldable pub lookahead : Zio → Option ℕ × Zio
lookahead z = look z.unread
  where
    look : Bytes → Option ℕ × Zio
    look [] = put_back (fill z)
    look (c ∷ b) = (some c, z)

-- min(n, z->n)
abbrev pub part_size : ℕ → Zio → ℕ
part_size n z = if leb n (length z.unread) then n else length z.unread

-- What is read so far, the number of bytes that are missing, and the stream.
pub record ReadState : Type 0 where
  pub b : Bytes
  pub missing : ℕ
  pub zio : Zio

-- One round of the loop: what is unread is copied, or as much of it as is wanted.
abbrev pub read_part : ReadState → Zio → ReadState
read_part s z =
    let m = part_size s.missing z in
    record {
      b = s.b ++ take m z.unread;
      missing = s.missing - m;
      zio = record z { unread = drop m z.unread };
    }

-- The loop of `luaZ_read`; each round reads a byte, so the fuel `n` is enough.
unfoldable pub read_loop : ℕ → ReadState → ReadState
read_loop zero s = s
read_loop (suc fuel) s =
    let (first, z) = lookahead s.zio in
    elim (s.missing == 0) [
      | true ↦ s
      | false ↦ elim first [ none ↦ record s { zio = z } | some c ↦ read_loop fuel (read_part s z) ]
    ]

unfoldable pub read : Zio → ℕ → ReadState
read z n = read_loop n (record { b = []; missing = n; zio = z })

-- `LoadBlock` of open-ldb/lundump.c
pub data Block : Type 0 where
  refused : Block
  block : Bytes → Zio → Block

abbrev pub load_from_zio : ℕ → Zio → Block
load_from_zio size z = let r = read z size in if r.missing == 0 then block r.b r.zio else refused

-- A caller of `LoadBlock`: what it asks for next depends on the blocks that it has got.
pub data Caller {ℓ} (A : Type ℓ) : Type ℓ where
  done : A → Caller A
  ask : ℕ → (Bytes → Caller A) → Caller A

-- The calls of `LoadBlock`, until one of them ends the load.
unfoldable pub run_calls {ℓ} : {A : Type ℓ} → Caller A → Zio → Option (A × Zio)
run_calls (done a) z = some (a, z)
run_calls (ask n k) z = elim (load_from_zio n z) [
  | refused ↦ none
  | block b z' ↦ run_calls (k b) z'
]
