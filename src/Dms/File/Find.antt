-- ===== src/Dms/File/Find.antt =====
-- `find` of dms/dms.cpp.
use emeralddb_src.Base.{◌+◌, ◌≤◌, ◌<◌, ◌≡◌, arith, none, some}
use emeralddb_src.Core.{ok, sys}
use emeralddb_src.Bson.{Bson}
use emeralddb_src.Dms.Layout.{RecordId, num_slots, slot_at, slot_empty}
use emeralddb_src.Dms.Page.{search_slot}
use emeralddb_src.Dms.File.{DmsFile, num_pages, find}
use emeralddb_src.Dms.File.Invariant.{StoredAt, page_address, page_to_offset-some}

module _ (bson : Bson) where
  open bson use {Obj, objdata, objsize, obj_at, obj_at-objdata}

  -- `find` of a record id under which the file stores the bytes of an object returns EDB_OK and that
  -- object.
  pub find-StoredAt :
      (f : DmsFile) (rid : RecordId) (o : Obj)
      → StoredAt f rid (objdata o)
      → find bson f rid ≡ (ok, some o)
  unfolding find search_slot
  find-StoredAt f rid o s =
      let page = page_address f.body rid.page_id in
      let e = page_to_offset-some f rid.page_id s.page_bound in
      rw (e, find)
        (ground (
          arith,
          obj_at-objdata f.mem (page + slot_at f.mem page rid.slot_id + 8) o s.stored.holds,
          s.slot_bound,
          s.stored.live,
          s.stored.normal,
        ))

  -- An emptied slot is reported as a dropped record.
  pub find_gone :
      (f : DmsFile) (rid : RecordId)
      → rid.page_id < num_pages f
      → rid.slot_id ≤ num_slots f.mem (page_address f.body rid.page_id)
      → slot_at f.mem (page_address f.body rid.page_id) rid.slot_id ≡ slot_empty
      → find bson f rid ≡ (sys, none)
  unfolding find search_slot
  find_gone f rid h k e = rw (page_to_offset-some f rid.page_id h, find) (ground (arith, e, k))
