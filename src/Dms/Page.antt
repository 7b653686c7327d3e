-- ===== src/Dms/Page.antt =====
-- dms/dms.cpp, the operations on one page in memory: `_searchSlot`, `_recoverSpace`, and the parts of
-- `insert` and `remove` that write into the page. A `char *page` is an address.
pub mod Invariant
pub mod Stack
pub mod Stored
pub mod Place
pub mod Insert
pub mod Drop
pub mod Remove
pub mod Moved
pub mod Recover
use emeralddb_src.Base.{
  ℕ, zero, suc, ◌+◌, ◌-◌, ◌*◌, ◌%◌, Bool, true, false, ◌||◌, List, Option, none, some, ltb, ◌==◌,
  if◌then◌else◌, ◌&&◌, length,
}
use emeralddb_src.Core.{Rc, ok, sys}
use emeralddb_src.Memory.{Mem, load32, store32, copy, move, add32, sub32}
use emeralddb_src.Dms.Layout.{
  RecordId, page_size, slot_size, record_header_size, slot_empty, flag_normal, flag_dropped,
  num_slots, slot_offset, free_space, free_offset, slot_address, slot_at, record_size,
}

-- `_searchSlot`. The ids are unsigned, so the test that they are negative never holds.
unfoldable pub search_slot : Mem → Option ℕ → RecordId → Rc × ℕ
search_slot m none rid = (sys, 0)
search_slot m (some page) rid =
    if ltb (num_slots m page) rid.slot_id then (sys, 0) else (ok, slot_at m page rid.slot_id)

-- The variables of the loop in `_recoverSpace`.
pub record Recovery : Type 0 where
  pub mem : Mem
  pub right : ℕ
  pub is_recover : Bool

-- The body of the loop, for slot `i`.
unfoldable pub recover_slot : ℕ → ℕ → Recovery → Recovery
recover_slot page i s =
    let slot = slot_at s.mem page i in
    let size = record_size s.mem page slot in
    let right = s.right - size in
    if slot == slot_empty
    then record s { is_recover = true }
    else if s.is_recover
    then record s {
      mem = store32 (move s.mem right (page + slot) size) (slot_address page i) (right - page);
      right = right;
    }
    else record s { right = right }

-- The loop, with the number of slots left.
unfoldable pub recover_from : ℕ → ℕ → ℕ → Recovery → Recovery
recover_from zero page i s = s
recover_from (suc left) page i s = recover_from left page (i + 1) (recover_slot page i s)

-- `_recoverSpace`. The loop reads the number of slots once.
unfoldable pub recover_space : Mem → ℕ → Mem
recover_space m page =
    (recover_from (num_slots m page) page 0
      (record { mem = m; right = page + page_size; is_recover = false })).mem

-- What a record of `size` bytes takes beside its slot, and with its slot.
abbrev pub full_size : ℕ → ℕ
full_size size = size + record_header_size + slot_size

-- The condition under which `insert` recovers the holes of the page.
unfoldable pub needs_recovery : Mem → ℕ → ℕ → Bool
needs_recovery m page size =
    ltb (sub32 (free_offset m page) (slot_offset m page)) (free_space m page)
    && ltb (free_offset m page) (add32 (slot_offset m page) size + record_header_size + slot_size)

-- The condition under which `insert` gives up on the page.
unfoldable pub lacks_space : Mem → ℕ → ℕ → Bool
lacks_space m page size =
    ltb (free_space m page) (full_size size)
    || ltb (sub32 (free_offset m page) (slot_offset m page)) (full_size size)

-- `insert`, from the copy of the slot to the copy of the record body.
unfoldable pub write_record : Mem → ℕ → ℕ → ℕ → List ℕ → Mem
write_record m page offset size bytes =
    let m1 = store32 m (slot_address page (num_slots m page)) offset in
    let m2 = store32 m1 (page + offset) (size + record_header_size) in
    let m3 = store32 m2 (page + offset + 4) flag_normal in
    copy m3 (page + offset + record_header_size) bytes

-- `insert`, the changes of the page header.
unfoldable pub count_record : Mem → ℕ → ℕ → Mem
count_record m page offset =
    let m1 = store32 m (page + 12) (add32 (num_slots m page) 1) in
    let m2 = store32 m1 (page + 16) (add32 (slot_offset m1 page) slot_size) in
    store32 m2 (page + 24) offset

-- `offsetTemp`
abbrev pub record_offset : Mem → ℕ → ℕ → ℕ
record_offset m page size = sub32 (free_offset m page) (size + record_header_size)

-- `insert`, from `offsetTemp` to the last change of the page header but the free space.
unfoldable pub place : Mem → ℕ → ℕ → List ℕ → Mem
place m page size bytes =
    let offset = record_offset m page size in
    count_record (write_record m page offset size bytes) page offset

-- `remove`: the slot is emptied and the record marked as dropped.
unfoldable pub drop_record : Mem → ℕ → ℕ → ℕ → Mem
drop_record m page slot_id slot =
    store32 (store32 m (slot_address page slot_id) slot_empty) (page + slot + 4) flag_dropped
