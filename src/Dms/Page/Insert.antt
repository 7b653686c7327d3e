-- ===== src/Dms/Page/Insert.antt =====
-- `insert` of dms/dms.cpp on the invariant of a page and its records.
use emeralddb_src.Base.{
  ℕ, suc, ◌+◌, ◌*◌, ◌≤◌, ◌<◌, ◌≡◌, sym, ◌∙◌, ◌⊎◌, inl, inr, false, List, arith, length,
}
use emeralddb_src.Memory.{
  Mem, Agree, load32, store32, load32-Agree, load32-store32, load32-store32_ne, store32_frame,
}
use emeralddb_src.Dms.Layout.{
  page_size, flag_normal, num_slots, slot_offset, free_space, free_offset, slot_address, slot_at,
  record_size, record_flag,
}
use emeralddb_src.Dms.Page.{write_record, count_record, place, record_offset}
use emeralddb_src.Dms.Page.Invariant.{IsPage-of, IsPage, Stored, Stacked, live_bytes}
use emeralddb_src.Dms.Page.Stack.{Stacked-at, record-Agree, Stacked-Agree, Stacked-snoc, SameSlots}
use emeralddb_src.Dms.Page.Place.{
  write_record_frame, write_record_slot, write_record_header, write_record_body,
  count_record_fields, count_record_frame,
}

-- What an insertion does to the page: `m'` is `m` with a new last slot and a record for it.
pub record Inserted (m m' : Mem) (page size : ℕ) (bytes : List ℕ) : Type 0 where
  pub len : length bytes ≡ size
  pub slots : num_slots m' page ≡ num_slots m page + 1
  pub ends : slot_offset m' page ≡ slot_offset m page + 4
  pub free : free_offset m' page + (size + 8) ≡ free_offset m page
  pub space : free_space m' page + (size + 12) ≡ free_space m page
  pub room : slot_offset m' page ≤ free_offset m' page
  pub at_bottom : slot_at m' page (num_slots m page) ≡ free_offset m' page
  pub stored : Stored m' page (num_slots m page) bytes
  pub eye_catcher : Agree m m' page (page + 12)
  pub frame :
      (x : ℕ)
      → (x < page) ⊎ (page + 28 ≤ x)
      → (x < slot_address page (num_slots m page)) ⊎ (slot_address page (num_slots m page) + 4 ≤ x)
      → (x + (size + 8) < page + free_offset m page) ⊎ (page + free_offset m page ≤ x)
      → m' x ≡ m x

module _ (m : Mem) (page size : ℕ) (bytes : List ℕ) (len : length bytes ≡ size)
    (ends : slot_offset m page ≡ 28 + num_slots m page * 4) (small : free_offset m page ≤ page_size)
    (fits : slot_offset m page + (size + 12) ≤ free_offset m page) (new : ℕ)
    (spent : new + (size + 12) ≡ free_space m page) (word : new < 4294967296) where
  bottom : record_offset m page size + (size + 8) ≡ free_offset m page
  bottom = omega arith

  abbrev written : Mem
  written = write_record m page (record_offset m page size) size bytes

  abbrev counted : Mem
  counted = count_record written page (record_offset m page size)

  abbrev inserted : Mem
  inserted = store32 counted (page + 20) new

  same_header : (k : ℕ) → k < 25 → load32 written (page + k) ≡ load32 m (page + k)
  same_header k h =
      load32-Agree m written (page + k) page (page + 28)
        (λ x p q.
          write_record_frame m page (record_offset m page size) size bytes x (inl (omega arith))
            (inl (omega (arith, bottom))))
        (omega arith) (omega arith)

  -- The words that `insert` reads after it has written the record.
  pub placed_words :
      (num_slots written page ≡ num_slots m page)
      × (free_space (place m page size bytes) page ≡ free_space m page)
  unfolding place
  placed_words = (
    same_header 12 (omega arith),
    load32-Agree written counted (page + 20) (page + 20) (page + 24)
          (λ x p q.
            count_record_frame written page (record_offset m page size) x (omega arith)
              (omega arith))
          (omega arith) (omega arith)
        ∙ same_header 20 (omega arith),
  )

  inserted_frame : (x : ℕ) → (x < page + 12) ⊎ (page + 28 ≤ x) → inserted x ≡ written x
  inserted_frame x h = ground (
    arith,
    store32_frame counted (page + 20) new x,
    count_record_frame written page (record_offset m page size) x,
  )

  inserted_word :
      (a : ℕ) → (a + 4 ≤ page + 12) ⊎ (page + 28 ≤ a) → load32 inserted a ≡ load32 written a
  inserted_word a h =
      load32-Agree written inserted a a (a + 4) (λ x p q. inserted_frame x (omega arith))
        (omega arith) (omega arith)

  fields :
      (num_slots inserted page ≡ num_slots m page + 1)
      × (slot_offset inserted page ≡ slot_offset m page + 4)
      × (free_offset inserted page ≡ record_offset m page size)
      × (free_space inserted page ≡ new)
  fields = ground (
    arith,
    bottom,
    same_header 12 (omega arith),
    same_header 16 (omega arith),
    count_record_fields written page (record_offset m page size),
    load32-store32_ne counted (page + 20) (page + 12) new,
    load32-store32_ne counted (page + 20) (page + 16) new,
    load32-store32_ne counted (page + 20) (page + 24) new,
    load32-store32 counted (page + 20) new word,
  )

  new_slot : slot_at inserted page (num_slots m page) ≡ record_offset m page size
  new_slot =
      inserted_word (slot_address page (num_slots m page)) (inr (omega arith))
      ∙ write_record_slot m page (record_offset m page size) size bytes (omega (arith, bottom))
          (omega arith)

  new_header :
      (record_size inserted page (record_offset m page size) ≡ size + 8)
      × (record_flag inserted page (record_offset m page size) ≡ flag_normal)
  new_header =
      let h = write_record_header m page (record_offset m page size) size bytes (omega arith) in
      (
        inserted_word (page + record_offset m page size) (inr (omega (arith, bottom))) ∙ h.0,
        inserted_word (page + record_offset m page size + 4) (inr (omega (arith, bottom))) ∙ h.1,
      )

  insert-Stored : Stored inserted page (num_slots m page) bytes
  insert-Stored = record {
    live = rw new_slot (omega (arith, bottom));
    normal = rw new_slot new_header.1;
    sized = rw new_slot (new_header.0 ∙ omega arith);
    holds = rw new_slot λ i h.
        inserted_frame (page + record_offset m page size + 8 + i) (inr (omega (arith, bottom)))
        ∙ write_record_body m page (record_offset m page size) size bytes i h;
  }

  pub insert-Inserted :
      Inserted m (store32 (place m page size bytes) (page + 20) new) page size bytes
  unfolding place
  insert-Inserted = record {
    len = len;
    slots = fields.0;
    ends = fields.1;
    free = omega (arith, fields.2, bottom);
    space = omega (arith, fields.3);
    room = omega (arith, fields.1, fields.2, bottom);
    at_bottom = omega (arith, new_slot, fields.2);
    stored = insert-Stored;
    eye_catcher = λ x p q.
        inserted_frame x (inl q)
        ∙ write_record_frame m page (record_offset m page size) size bytes x (inl (omega arith))
            (inl (omega (arith, bottom)));
    frame = λ x a b c.
        inserted_frame x (omega arith)
        ∙ write_record_frame m page (record_offset m page size) size bytes x b
            (omega (arith, bottom));
  }

module _ {m m' : Mem} {page size : ℕ} {bytes : List ℕ} (ins : Inserted m m' page size bytes)
    (valid : IsPage m page) where
  old_slots : SameSlots m m' page 0 (num_slots m page)
  old_slots j p q =
      load32-Agree m m' (slot_address page j) (page + 28) (slot_address page (num_slots m page))
        (λ x a b.
          ins.frame x (omega arith) (omega arith)
            (omega (arith, ins.room, ins.ends, ins.free, valid.slots_end)))
        (omega arith) (omega arith)

  old_records : Agree m m' (page + free_offset m page) (page + page_size)
  old_records x a b =
      ins.frame x (omega (arith, valid.room, valid.slots_end))
        (omega (arith, valid.room, valid.slots_end, ins.room, ins.ends, ins.free)) (inr a)

  same :
      Stacked m' page (free_offset m page) 0 (num_slots m page) page_size false
      × (live_bytes m' page 0 (num_slots m page) ≡ live_bytes m page 0 (num_slots m page))
  same =
      Stacked-Agree m m' page (free_offset m page) 0 (num_slots m page) (num_slots m page) page_size
        false (omega arith) old_slots old_records valid.stacked

  longer :
      Stacked m' page
        (slot_at m' page (num_slots m page))
        0
        (suc (num_slots m page))
        page_size
        false
      × (live_bytes m' page 0 (suc (num_slots m page))
          ≡ live_bytes m' page 0 (num_slots m page)
            + record_size m' page (slot_at m' page (num_slots m page)))
  longer =
      Stacked-snoc m' page (free_offset m page) 0 (num_slots m page) (num_slots m page) page_size
        false (omega arith) ins.stored.live
        (
          omega (arith, ins.stored.sized),
          ins.stored.normal,
          omega (arith, ins.stored.sized, ins.len, ins.at_bottom, ins.free),
        )
        same.0

  count : num_slots m' page ≡ suc (num_slots m page)
  count = omega (arith, ins.slots)

  pub Inserted-IsPage : IsPage m' page
  Inserted-IsPage =
      IsPage-of m m' page (suc (num_slots m page)) (slot_at m' page (num_slots m page))
        (λ x a b. ins.eye_catcher x a (omega arith)) count
        (omega (arith, ins.ends, valid.slots_end)) (sym ins.at_bottom)
        (omega (arith, ins.room, ins.ends, ins.at_bottom, valid.slots_end)) longer.0
        (omega (
          arith, longer.1, ins.space, ins.stored.sized, ins.len, valid.slots_end, valid.space,
          same.1,
        ))
        valid

  pub Inserted-Stored :
      (i : ℕ) (others : List ℕ)
      → i < num_slots m page
      → Stored m page i others
      → Stored m' page i others
  Inserted-Stored i others h s =
      let e = old_slots i (omega arith) h in
      let t =
        Stacked-at m page (free_offset m page) 0 (num_slots m page) (num_slots m page) page_size
          false (omega arith) valid.stacked i (omega arith) h s.live in
      let r =
        record-Agree m m' page (free_offset m page) (slot_at m page i) page_size old_records t.above
          (omega (arith, t.under, t.header)) in
      record {
        live = rw e s.live;
        normal = rw e (r.1 ∙ s.normal);
        sized = rw e (r.0 ∙ s.sized);
        holds = rw e λ k l.
            old_records (page + slot_at m page i + 8 + k) (omega (arith, t.above))
              (omega (arith, t.under, s.sized))
            ∙ s.holds k l;
      }
