-- ===== src/ScriptMap.antt =====
-- `map<string, vector<T> >` of open-ldb/LuaDebugger.cpp, keyed by the script's name. The code reads
-- it by `operator[]` alone, which makes an empty vector for a missing key, so the map is the
-- function from names to vectors.
use lua_eclipse_ide.Base.{
  List, [], ◌∷◌, ◌++◌, Bytes, eq_bytes, eq_bytes_iff, eq_bytes_refl, if◌then◌else◌, ◌≡◌, ◌≢◌, arith,
}

module _ {ℓ} {T : Type ℓ} where
  abbrev pub assign : (Bytes → List T) → Bytes → List T → Bytes → List T
  assign m name list other = if eq_bytes name other then list else m other

  abbrev pub push_back : (Bytes → List T) → Bytes → T → Bytes → List T
  push_back m name x = assign m name (m name ++ x ∷ [])

  pub assign_self :
      (m : Bytes → List T) (name : Bytes) (list : List T) → assign m name list name ≡ list
  assign_self m name list = rw (eq_bytes_refl name)

  pub assign_ne :
      (m : Bytes → List T) (name other : Bytes) (list : List T)
      → name ≢ other
      → assign m name list other ≡ m other
  assign_ne m name other list h = ground (arith, eq_bytes_iff name other)
