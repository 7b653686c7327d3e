-- ===== src/Rtn.antt =====
-- rtn/rtn.cpp: the runtime, between the agents and the record store. `rtnFind` and `rtnRemove` do not call
-- the record store in this version.
use emeralddb_src.Base.{ℕ, Bool, not, if◌then◌else◌, List, Option, none, some}
use emeralddb_src.Core.{Rc, ok, oom}
use emeralddb_src.Bson.{Bson}
use emeralddb_src.Memory.{Mem}
use emeralddb_src.Dms.Open.{Opening, initialize, new_file}
use emeralddb_src.Dms.File.{DmsFile, no_page, returns}
use emeralddb_src.Dms.Insertion.{Turn, insert}

-- rtnInitialize; `allocated` is whether `new` gives a dmsFile, `size` the length of the file on disk.
unfoldable pub rtn_initialize :
    Bool → Opening → (ℕ → ℕ) → List Rc → Mem → ℕ → Option (Rc × Option DmsFile)
rtn_initialize allocated o disk sizes m size =
    if not allocated then some (oom, none) else elim (initialize o disk sizes (new_file m size)) [
      | none ↦ none
      | some (rc, f) ↦ some (rc, some f)
    ]

module _ (bson : Bson) where
  open bson use {Obj}

  -- rtnInsert, over the turns of the loop in `insert`; `none` while it finds no page after them
  unfoldable pub rtn_insert : List Turn → DmsFile → Obj → Option (Rc × DmsFile)
  rtn_insert turns f o = elim (insert bson turns f o) [
    | no_page ↦ none
    | returns rc g out ↦ some (rc, g)
  ]

  -- rtnFind
  abbrev pub rtn_find : DmsFile → Obj → Rc × DmsFile
  rtn_find f key = (ok, f)

  -- rtnRemove
  abbrev pub rtn_remove : DmsFile → Obj → Rc × DmsFile
  rtn_remove f key = (ok, f)
