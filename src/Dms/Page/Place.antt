-- ===== src/Dms/Page/Place.antt =====
-- What `insert` of dms/dms.cpp does to the bytes of a page.
use emeralddb_src.Base.{ℕ, ◌+◌, ◌≤◌, ◌<◌, ◌≡◌, ◌⊎◌, List, arith, length}
use emeralddb_src.Memory.{
  Mem, Holds, store32, load32-store32, load32-store32_ne, load32-copy_ne, store32_frame, copy_frame,
  copy-Holds, add32,
}
use emeralddb_src.Dms.Layout.{
  flag_normal, num_slots, slot_offset, free_offset, slot_address, slot_at, record_size, record_flag,
}
use emeralddb_src.Dms.Page.{write_record, count_record}

module _ (m : Mem) (page offset size : ℕ) (bytes : List ℕ) where
  pub write_record_frame :
      (x : ℕ)
      → (x < slot_address page (num_slots m page)) ⊎ (slot_address page (num_slots m page) + 4 ≤ x)
      → (x < page + offset) ⊎ (page + offset + 8 + length bytes ≤ x)
      → write_record m page offset size bytes x ≡ m x
  unfolding write_record
  write_record_frame x h k =
      let slot = slot_address page (num_slots m page) in
      let m1 = store32 m slot offset in
      let m2 = store32 m1 (page + offset) (size + 8) in
      let m3 = store32 m2 (page + offset + 4) flag_normal in
      ground (
        arith,
        store32_frame m slot offset x,
        store32_frame m1 (page + offset) (size + 8) x,
        store32_frame m2 (page + offset + 4) flag_normal x,
        copy_frame m3 (page + offset + 8) bytes x,
      )

  pub write_record_slot :
      slot_address page (num_slots m page) + 4 ≤ page + offset
      → offset < 4294967296
      → slot_at (write_record m page offset size bytes) page (num_slots m page) ≡ offset
  unfolding write_record
  write_record_slot h k =
      let slot = slot_address page (num_slots m page) in
      let m1 = store32 m slot offset in
      let m2 = store32 m1 (page + offset) (size + 8) in
      let m3 = store32 m2 (page + offset + 4) flag_normal in
      ground (
        arith,
        load32-copy_ne m3 (page + offset + 8) slot bytes,
        load32-store32_ne m2 (page + offset + 4) slot flag_normal,
        load32-store32_ne m1 (page + offset) slot (size + 8),
        load32-store32 m slot offset,
      )

  pub write_record_header :
      size + 8 < 4294967296
      → (record_size (write_record m page offset size bytes) page offset ≡ size + 8)
        × (record_flag (write_record m page offset size bytes) page offset ≡ flag_normal)
  unfolding write_record
  write_record_header h =
      let m1 = store32 m (slot_address page (num_slots m page)) offset in
      let m2 = store32 m1 (page + offset) (size + 8) in
      let m3 = store32 m2 (page + offset + 4) flag_normal in
      ground (
        arith,
        load32-copy_ne m3 (page + offset + 8) (page + offset) bytes,
        load32-copy_ne m3 (page + offset + 8) (page + offset + 4) bytes,
        load32-store32_ne m2 (page + offset + 4) (page + offset) flag_normal,
        load32-store32 m2 (page + offset + 4) flag_normal,
        load32-store32 m1 (page + offset) (size + 8),
      )

  pub write_record_body : Holds (write_record m page offset size bytes) (page + offset + 8) bytes
  unfolding write_record
  write_record_body = copy-Holds _ (page + offset + 8) bytes

pub count_record_fields :
    (m : Mem) (page offset : ℕ)
    → num_slots m page + 1 < 4294967296
    → slot_offset m page + 4 < 4294967296
    → offset < 4294967296
    → (num_slots (count_record m page offset) page ≡ num_slots m page + 1)
      × (slot_offset (count_record m page offset) page ≡ slot_offset m page + 4)
      × (free_offset (count_record m page offset) page ≡ offset)
unfolding count_record
count_record_fields m page offset h k l =
    let n = add32 (num_slots m page) 1 in
    let m1 = store32 m (page + 12) n in
    let e = add32 (slot_offset m1 page) 4 in
    let m2 = store32 m1 (page + 16) e in
    ground (
      arith,
      load32-store32_ne m2 (page + 24) (page + 12) offset,
      load32-store32_ne m1 (page + 16) (page + 12) e,
      load32-store32 m (page + 12) n,
      load32-store32_ne m2 (page + 24) (page + 16) offset,
      load32-store32 m1 (page + 16) e,
      load32-store32_ne m (page + 12) (page + 16) n,
      load32-store32 m2 (page + 24) offset,
    )

pub count_record_frame :
    (m : Mem) (page offset x : ℕ)
    → (x < page + 12) ⊎ (page + 20 ≤ x)
    → (x < page + 24) ⊎ (page + 28 ≤ x)
    → count_record m page offset x ≡ m x
unfolding count_record
count_record_frame m page offset x h k =
    let m1 = store32 m (page + 12) (add32 (num_slots m page) 1) in
    let m2 = store32 m1 (page + 16) (add32 (slot_offset m1 page) 4) in
    ground (
      arith,
      store32_frame m (page + 12) (add32 (num_slots m page) 1) x,
      store32_frame m1 (page + 16) (add32 (slot_offset m1 page) 4) x,
      store32_frame m2 (page + 24) offset x,
    )
