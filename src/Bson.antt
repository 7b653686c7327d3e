-- ===== src/Bson.antt =====
-- What the server asks of the BSON library (bson/, a copy of MongoDB's, which is not modelled): an
-- object is its bytes, and a constructor over a pointer reads an object from those bytes.
use emeralddb_src.Base.{ℕ, ◌≡◌, List, Bool, length}
use emeralddb_src.Memory.{Mem, Holds}

pub record Bson : Type 1 where
  pub Obj : Type 0
  -- objsize (), objdata ()
  pub objsize : Obj → ℕ
  pub objdata : Obj → List ℕ
  -- BSONObj (const char *) at an address
  pub obj_at : Mem → ℕ → Obj
  -- ! getFieldDottedOrArray ("_id").eoo ()
  pub has_id : Obj → Bool
  pub length-objdata : (o : Obj) → length (objdata o) ≡ objsize o
  pub obj_at-objdata : (m : Mem) (p : ℕ) (o : Obj) → Holds m p (objdata o) → obj_at m p ≡ o
