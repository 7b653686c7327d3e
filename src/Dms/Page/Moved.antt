-- ===== src/Dms/Page/Moved.antt =====
-- A page of dms/dms.cpp whose bytes are read at another address, as when its segment is mapped again.
use emeralddb_src.Base.{
  ℕ, zero, suc, ◌+◌, ◌*◌, ◌≤◌, ◌<◌, ◌≡◌, refl, ap, ◌∙◌, Bool, false, List, arith, length,
}
use emeralddb_src.Memory.{Mem, load32, load32_shift}
use emeralddb_src.Dms.Layout.{page_size, num_slots, slot_at, free_offset, record_flag}
use emeralddb_src.Dms.Page.Invariant.{Stacked, live_bytes, next_top, next_hole, IsPage, Stored}
use emeralddb_src.Dms.Page.Stack.{Stacked-le, Stacked-head, Stacked-at, next_top-le}

-- The memory `m'` holds at `page'` the page that `m` holds at `page`.
abbrev pub IsCopy : Mem → ℕ → Mem → ℕ → Type 0
IsCopy m page m' page' = (k : ℕ) → k < page_size → m' (page' + k) ≡ m (page + k)

module _ (m : Mem) (page : ℕ) (m' : Mem) (page' : ℕ) (same : IsCopy m page m' page') where
  pub word_moved : (k : ℕ) → k + 4 ≤ page_size → load32 m' (page' + k) ≡ load32 m (page + k)
  word_moved k h = load32_shift m m' page page' page_size k (page' + k) (page + k) same h refl refl

  slot_moved : (j : ℕ) → 32 + j * 4 ≤ page_size → slot_at m' page' j ≡ slot_at m page j
  slot_moved j h =
      load32_shift m m' page page' page_size (28 + j * 4) (page' + 28 + j * 4) (page + 28 + j * 4)
        same (omega arith) (omega arith) (omega arith)

  flag_moved :
      (slot : ℕ) → slot + 8 ≤ page_size → record_flag m' page' slot ≡ record_flag m page slot
  flag_moved slot h =
      load32_shift m m' page page' page_size (slot + 4) (page' + slot + 4) (page + slot + 4) same
        (omega arith) (omega arith) (omega arith)

  Stacked-moved :
      (bottom i left n top : ℕ) (hole : Bool)
      → i + left ≡ n
      → 28 + n * 4 ≤ page_size
      → top ≤ page_size
      → Stacked m page bottom i left top hole
      → Stacked m' page' bottom i left top hole
        × (live_bytes m' page' i left ≡ live_bytes m page i left)
  Stacked-moved bottom i zero n top hole e s t h = (h, refl)
  Stacked-moved bottom i (suc left) n top hole e s t h =
      let slot = slot_at m page i in
      let rest =
        Stacked-moved bottom (i + 1) left n (next_top slot top) (next_hole slot hole) (omega arith)
          s (omega (arith, next_top-le m page bottom i left top hole h)) h.1 in
      rw (slot_moved i (omega arith)) (
        ground (
          arith,
          rest,
          word_moved slot,
          flag_moved slot,
          Stacked-head m page bottom i left top hole h,
        ))

  module _ (valid : IsPage m page) where
    bottom_bound : free_offset m page ≤ page_size
    bottom_bound =
        Stacked-le m page (free_offset m page) 0 (num_slots m page) page_size false valid.stacked

    pub IsPage-moved : IsPage m' page'
    IsPage-moved =
        let kept =
          Stacked-moved (free_offset m page) 0 (num_slots m page) (num_slots m page) page_size false
            (omega arith) (omega (arith, valid.slots_end, valid.room, bottom_bound)) (omega arith)
            valid.stacked in
        let count = word_moved 12 (omega arith) in
        let ends = word_moved 16 (omega arith) in
        let free = word_moved 24 (omega arith) in
        let byte : (k : ℕ) → k < 4 → m' (page' + k) ≡ m (page + k) = λ k h. same k (omega arith) in
        let first : m' page' ≡ m page =
          ap m' (omega arith) ∙ byte 0 (omega arith) ∙ ap m (omega arith) in
        record {
          eye_catcher =
              rw (first, byte 1 (omega arith), byte 2 (omega arith), byte 3 (omega arith))
                valid.eye_catcher;
          slots_end = rw (ends, count) valid.slots_end;
          room = rw (ends, free) valid.room;
          stacked = rw (free, count) (kept.0);
          space = rw (count, kept.1, ends, word_moved 20 (omega arith)) valid.space;
        }

    pub Stored-copied :
        (j : ℕ) (bytes : List ℕ)
        → j < num_slots m page
        → Stored m page j bytes
        → (j < num_slots m' page') × Stored m' page' j bytes
    Stored-copied j bytes h s =
        let t =
          Stacked-at m page (free_offset m page) 0 (num_slots m page) (num_slots m page) page_size
            false (omega arith) valid.stacked j (omega arith) h s.live in
        let slot = slot_moved j (omega (arith, valid.slots_end, valid.room, bottom_bound)) in
        let fits : slot_at m page j + (length bytes + 8) ≤ page_size =
          omega (arith, t.under, s.sized) in
        (
          rw (word_moved 12 (omega arith)) h,
          record {
            live = rw slot s.live;
            normal = rw slot (flag_moved (slot_at m page j) (omega arith) ∙ s.normal);
            sized = rw slot (word_moved (slot_at m page j) (omega arith) ∙ s.sized);
            holds = rw slot λ k b.
                ap m' (omega arith)
                ∙ same (slot_at m page j + 8 + k) (omega arith)
                ∙ ap m (omega arith)
                ∙ s.holds k b;
          },
        )
