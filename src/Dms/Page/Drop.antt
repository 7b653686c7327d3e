-- ===== src/Dms/Page/Drop.antt =====
-- What `remove` of dms/dms.cpp does to the bytes of a page.
use emeralddb_src.Base.{ℕ, ◌+◌, ◌≤◌, ◌<◌, ◌≡◌, ◌∙◌, ◌≢◌, ◌⊎◌, false, arith}
use emeralddb_src.Memory.{
  Mem, load32, store32, load32-Agree, load32-store32, load32-store32_ne, store32_frame,
}
use emeralddb_src.Dms.Layout.{
  page_size, slot_empty, num_slots, slot_offset, free_space, free_offset, slot_address, slot_at,
  record_size,
}
use emeralddb_src.Dms.Page.{drop_record}
use emeralddb_src.Dms.Page.Invariant.{IsPage}
use emeralddb_src.Dms.Page.Stack.{Stacked-at, InStack}

-- What a removal does to the page: slot `k` is emptied, and the record's flag is changed.
pub record Removed (m m' : Mem) (page k : ℕ) : Type 0 where
  pub slots : num_slots m' page ≡ num_slots m page
  pub ends : slot_offset m' page ≡ slot_offset m page
  pub free : free_offset m' page ≡ free_offset m page
  pub space : free_space m' page ≡ free_space m page + record_size m page (slot_at m page k)
  pub gone : slot_at m' page k ≡ slot_empty
  pub frame :
      (x : ℕ)
      → (x < page + 20) ⊎ (page + 24 ≤ x)
      → (x < slot_address page k) ⊎ (slot_address page k + 4 ≤ x)
      → (x < page + slot_at m page k + 4) ⊎ (page + slot_at m page k + 8 ≤ x)
      → m' x ≡ m x

module _ (m : Mem) (page k : ℕ) (valid : IsPage m page) (bound : k < num_slots m page)
    (live : slot_at m page k ≢ slot_empty) where
  pub place_of : InStack m page (free_offset m page) (slot_at m page k) page_size
  place_of =
      Stacked-at m page (free_offset m page) 0 (num_slots m page) (num_slots m page) page_size false
        (omega arith) valid.stacked k (omega arith) bound live

  abbrev dropped : Mem
  dropped = drop_record m page k (slot_at m page k)

  -- The words that `remove` reads once the record is dropped.
  pub dropped_words :
      (free_space dropped page ≡ free_space m page)
      × (record_size dropped page (slot_at m page k) ≡ record_size m page (slot_at m page k))
  unfolding drop_record
  dropped_words =
      let m1 = store32 m (slot_address page k) slot_empty in
      let q = page + slot_at m page k + 4 in
      ground (
        arith,
        load32-store32_ne m1 q (page + 20) 1,
        load32-store32_ne m (slot_address page k) (page + 20) slot_empty,
        load32-store32_ne m1 q (page + slot_at m page k) 1,
        load32-store32_ne m (slot_address page k) (page + slot_at m page k) slot_empty,
        place_of.above,
        valid.room,
        valid.slots_end,
      )

  module _ (new : ℕ) (grown : new ≡ free_space m page + record_size m page (slot_at m page k))
      (word : new < 4294967296) where
    abbrev removed : Mem
    removed = store32 dropped (page + 20) new

    removed_frame :
        (x : ℕ)
        → (x < page + 20) ⊎ (page + 24 ≤ x)
        → (x < slot_address page k) ⊎ (slot_address page k + 4 ≤ x)
        → (x < page + slot_at m page k + 4) ⊎ (page + slot_at m page k + 8 ≤ x)
        → removed x ≡ m x
    unfolding drop_record
    removed_frame x a b c =
        let m1 = store32 m (slot_address page k) slot_empty in
        ground (
          arith,
          store32_frame m (slot_address page k) slot_empty x,
          store32_frame m1 (page + slot_at m page k + 4) 1 x,
          store32_frame dropped (page + 20) new x,
        )

    removed_word :
        (a : ℕ)
        → (a + 4 ≤ page + 20) ⊎ (page + 24 ≤ a)
        → a + 4 ≤ page + 28
        → load32 removed a ≡ load32 m a
    removed_word a h l =
        load32-Agree m removed a a (a + 4)
          (λ x p q.
            removed_frame x (omega arith) (omega arith)
              (omega (arith, place_of.above, valid.room, valid.slots_end)))
          (omega arith) (omega arith)

    removed_slot : slot_at removed page k ≡ slot_empty
    unfolding drop_record
    removed_slot =
        let m1 = store32 m (slot_address page k) slot_empty in
        ground (
          arith,
          load32-store32 m (slot_address page k) slot_empty,
          load32-store32_ne m1 (page + slot_at m page k + 4) (slot_address page k) 1,
          load32-store32_ne dropped (page + 20) (slot_address page k) new,
          place_of.above,
          valid.room,
          valid.slots_end,
        )

    pub remove-Removed : Removed m removed page k
    remove-Removed = record {
      slots = removed_word (page + 12) (omega arith) (omega arith);
      ends = removed_word (page + 16) (omega arith) (omega arith);
      free = removed_word (page + 24) (omega arith) (omega arith);
      space = load32-store32 dropped (page + 20) new word ∙ grown;
      gone = removed_slot;
      frame = removed_frame;
    }
