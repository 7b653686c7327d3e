-- ===== src/Dms/Insertion.antt =====
-- dms/dms.cpp: `insert`, with its checks of the record and the loop that extends the file until a page
-- is found.
pub mod Settled
pub mod Returns
use emeralddb_src.Base.{true, false, not, List, [], ◌∷◌, none, ltb, if◌then◌else◌}
use emeralddb_src.Core.{Rc, ok, invalidarg, is_error}
use emeralddb_src.Bson.{Bson}
use emeralddb_src.Dms.Layout.{max_record}
use emeralddb_src.Dms.File.{DmsFile, Attempt, no_page, returns, insert_once}
use emeralddb_src.Dms.Extend.{Os, extend_segment}

-- A round of `insert` that found no page, and has released `_mutex`: this thread extends the file, or it waits
-- for the thread that does. The functions are what the other threads do to the file before the extension,
-- between the extension and the label retry, and while this thread waits.
pub data Turn : Type 0 where
  extends : (DmsFile → DmsFile) → Os → (DmsFile → DmsFile) → Turn
  waits : (DmsFile → DmsFile) → Turn

unfoldable pub take_turn : Turn → DmsFile → Rc × DmsFile
take_turn (extends before os after) f = let (rc, g) = extend_segment os (before f) in (rc, after g)
take_turn (waits others) f = (ok, others f)

module _ (bson : Bson) where
  open bson use {Obj, objsize, has_id}

  -- The loop of `insert` from `retry` on, over the turns to come; `no_page` if they do not suffice.
  unfoldable pub insert_retry : List Turn → DmsFile → Obj → Attempt Obj
  insert_retry [] f o = insert_once bson f o
  insert_retry (t ∷ ts) f o = elim (insert_once bson f o) [
    | returns rc g out ↦ returns rc g out
    | no_page ↦
        let (rc, g) = take_turn t f in
        elim (is_error rc) [ true ↦ returns rc g none | false ↦ insert_retry ts g o ]
  ]

  -- `insert`
  unfoldable pub insert : List Turn → DmsFile → Obj → Attempt Obj
  insert turns f o =
      if ltb max_record (objsize o)
      then returns invalidarg f none
      else if not (has_id o)
      then returns invalidarg f none
      else insert_retry turns f o
