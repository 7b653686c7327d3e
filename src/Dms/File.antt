-- ===== src/Dms/File.antt =====
-- dms/dms.cpp: the class `dmsFile`, its lookups and updates of the free-space map, and the public
-- operations `insert`, `remove` and `find`. Each holds `_mutex` from its first read of the file to its
-- return, so it is one step on the state.
pub mod Invariant
pub mod Change
pub mod Added
pub mod Insert
pub mod Oversize
pub mod Remove
pub mod Find
use emeralddb_src.Base.{
  ℕ, ◌+◌, ◌-◌, ◌*◌, ◌/◌, ◌%◌, Bool, ◌||◌, not, List, [], ◌∷◌, Option, none, some, ltb, leb, ◌==◌,
  if◌then◌else◌, length, get_or,
}
use emeralddb_src.Core.{Rc, ok, sys, invalidarg, is_error}
use emeralddb_src.Bson.{Bson}
use emeralddb_src.Memory.{Mem, load32, store32, add32, sub32}
use emeralddb_src.Dms.Layout.{
  RecordId, page_size, pages_per_segment, max_record, record_header_size, slot_empty, flag_dropped,
  num_slots, free_space, free_offset, record_size, record_flag, has_eye_catcher,
}
use emeralddb_src.Dms.FreeSpace.{FreeSpaceMap, insert, erase, upper_bound}
use emeralddb_src.Dms.Page.{
  search_slot, recover_space, needs_recovery, lacks_space, place, drop_record, full_size,
  write_record, record_offset,
}

-- `mem` is the memory of the process, `header` the address of the mapped file header, `body` those of
-- the mapped segments, and `file_size` the length of the file on disk.
pub record DmsFile : Type 0 where
  pub mem : Mem
  pub header : Option ℕ
  pub body : List ℕ
  pub free_space_map : FreeSpaceMap
  pub file_size : ℕ

-- getNumPages ()
abbrev pub num_pages : DmsFile → ℕ
num_pages f = length f.body * pages_per_segment

-- pageToOffset (pageID), `none` for NULL
unfoldable pub page_to_offset : DmsFile → ℕ → Option ℕ
page_to_offset f page_id =
    if leb (num_pages f) page_id
    then none
    else some
        (get_or f.body (page_id / pages_per_segment) 0 + page_size * (page_id % pages_per_segment))

-- `_findPage`, `none` for DMS_INVALID_PAGEID
unfoldable pub find_page : DmsFile → ℕ → Option ℕ
find_page f size = elim (upper_bound size f.free_space_map) [
  | none ↦ none
  | some (space, page_id) ↦ some page_id
]

-- `_updateFreeSpace`. The change is an unsigned 32-bit number, so a decrease by n is 2 ^ 32 - n.
unfoldable pub update_free_space : DmsFile → ℕ → ℕ → ℕ → DmsFile
update_free_space f page change page_id =
    let old = free_space f.mem page in
    let new = add32 old change in
    record f {
      mem = store32 f.mem (page + 20) new;
      free_space_map = insert new page_id (erase old page_id f.free_space_map);
    }

-- What one pass of `insert` through its critical section comes to: no page was found, or `insert`
-- returns, on success with the record's id and the object that `outRecord` points to.
pub data Attempt (O : Type 0) : Type 0 where
  no_page : Attempt O
  returns : Rc → DmsFile → Option (RecordId × O) → Attempt O

module _ (bson : Bson) where
  open bson use {Obj, objsize, objdata, obj_at, has_id}

  -- `insert`, from the check of the page's eye catcher on.
  unfoldable pub insert_into : DmsFile → ℕ → ℕ → Obj → Attempt Obj
  insert_into f page_id page o =
      let size = objsize o in
      let m = if needs_recovery f.mem page size then recover_space f.mem page else f.mem in
      let offset = record_offset m page size in
      let written = write_record m page offset size (objdata o) in
      let rid : RecordId = record { page_id = page_id; slot_id = num_slots written page } in
      let f' =
        update_free_space (record f { mem = place m page size (objdata o) }) page
          (sub32 0 (full_size size)) page_id in
      if not (has_eye_catcher f.mem page)
      then returns sys f none
      else if lacks_space m page size
      then returns sys (record f { mem = m }) none
      else returns ok f' (some (rid, obj_at f'.mem (page + offset + record_header_size)))

  -- `insert`, from `retry` to the release of `_mutex`.
  unfoldable pub insert_once : DmsFile → Obj → Attempt Obj
  unfolding insert_into
  insert_once f o = elim (find_page f (objsize o + record_header_size)) [
    | none ↦ no_page
    | some page_id ↦ elim (page_to_offset f page_id) [
      | none ↦ returns sys f none
      | some page ↦ insert_into f page_id page o
    ]
  ]

  -- `find`: the code and, on success, the object.
  unfoldable pub find : DmsFile → RecordId → Rc × Option Obj
  find f rid = elim (page_to_offset f rid.page_id) [
    | none ↦ (sys, none)
    | some page ↦
        let (rc, slot) = search_slot f.mem (some page) rid in
        if is_error rc
        then (rc, none)
        else if slot == slot_empty
        then (sys, none)
        else if record_flag f.mem page slot == flag_dropped
        then (sys, none)
        else (ok, some (obj_at f.mem (page + slot + record_header_size)))
  ]

-- `remove`
unfoldable pub remove : DmsFile → RecordId → Rc × DmsFile
remove f rid = elim (page_to_offset f rid.page_id) [
  | none ↦ (sys, f)
  | some page ↦
      let (rc, slot) = search_slot f.mem (some page) rid in
      let g = record f { mem = drop_record f.mem page rid.slot_id slot } in
      if is_error rc
      then (rc, f)
      else if slot == slot_empty
      then (sys, f)
      else (ok, update_free_space g page (record_size g.mem page slot) rid.page_id)
]
