-- ===== src/Dms/File/Invariant.antt =====
-- What holds of the file of dms/dms.cpp between two operations, and what it stores.
use emeralddb_src.Base.{
  ℕ, ◌+◌, ◌*◌, ◌/◌, ◌%◌, ◌≤◌, ◌<◌, ◌≡◌, ap, ◌≢◌, ◌⊎◌, inl, inr, false, List, arith, length, get_or,
  ◌==◌, some, Bool-cases,
}
use emeralddb_src.Memory.{Mem, Agree, load32, load32-Agree}
use emeralddb_src.Dms.Layout.{
  RecordId, page_size, pages_per_segment, segment_size, free_space, num_slots, slot_at, free_offset,
}
use emeralddb_src.Dms.FreeSpace.Index.{IsIndex}
use emeralddb_src.Dms.File.{DmsFile, num_pages, page_to_offset}
use emeralddb_src.Dms.Page.Invariant.{IsPage-of, IsPage, Stored}
use emeralddb_src.Dms.Page.Stack.{Stacked-Agree, Stacked-at, Stacked-le}
use emeralddb_src.Dms.Page.Stored.{Stored-Agree}

-- The address of a page.
abbrev pub page_address : List ℕ → ℕ → ℕ
page_address body p = get_or body (p / pages_per_segment) 0 + page_size * (p % pages_per_segment)

-- Two mapped segments do not overlap.
abbrev pub AreApart : List ℕ → Type 0
AreApart body =
    (i j : ℕ)
    → i < length body
    → j < length body
    → i ≢ j
    → (get_or body i 0 + segment_size ≤ get_or body j 0)
      ⊎ (get_or body j 0 + segment_size ≤ get_or body i 0)

abbrev pub space_of : Mem → List ℕ → ℕ → ℕ
space_of m body p = free_space m (page_address body p)

pub record IsFile (f : DmsFile) : Type 0 where
  pub pages : (p : ℕ) → p < num_pages f → IsPage f.mem (page_address f.body p)
  pub apart : AreApart f.body
  pub index : IsIndex (space_of f.mem f.body) (num_pages f) f.free_space_map

-- The file holds the bytes of an object under a record id.
pub record StoredAt (f : DmsFile) (rid : RecordId) (bytes : List ℕ) : Type 0 where
  pub page_bound : rid.page_id < num_pages f
  pub slot_bound : rid.slot_id < num_slots f.mem (page_address f.body rid.page_id)
  pub stored : Stored f.mem (page_address f.body rid.page_id) rid.slot_id bytes

-- A page and what it holds depend on its own bytes only.
module _ (m m' : Mem) (page : ℕ) (same : Agree m m' page (page + page_size)) where
  pub word_agree : (k : ℕ) → k < 25 → load32 m' (page + k) ≡ load32 m (page + k)
  word_agree k h =
      load32-Agree m m' (page + k) page (page + page_size) same (omega arith) (omega arith)

  module _ (valid : IsPage m page) where
    slots_agree : (j : ℕ) → 0 ≤ j → j < num_slots m page → slot_at m' page j ≡ slot_at m page j
    slots_agree j p q =
        load32-Agree m m' (page + 28 + j * 4) page (page + page_size) same (omega arith)
          (omega (arith, valid.slots_end, valid.room, bound))
      where
        bound : free_offset m page ≤ page_size
        bound =
            Stacked-le m page (free_offset m page) 0 (num_slots m page) page_size false
              valid.stacked

    pub IsPage-Agree : IsPage m' page
    IsPage-Agree =
        let kept =
          Stacked-Agree m m' page (free_offset m page) 0 (num_slots m page) (num_slots m page)
            page_size false (omega arith) slots_agree (λ x a b. same x (omega arith) b)
            valid.stacked in
        IsPage-of m m' page (num_slots m page) (free_offset m page)
          (λ x a b. same x a (omega arith)) (word_agree 12 (omega arith))
          (omega (arith, word_agree 16 (omega arith), valid.slots_end))
          (word_agree 24 (omega arith)) (omega (arith, valid.room, valid.slots_end)) kept.0
          (omega (arith, word_agree 20 (omega arith), kept.1, valid.slots_end, valid.space)) valid

    pub Stored-page :
        (i : ℕ) (bytes : List ℕ)
        → i < num_slots m page
        → Stored m page i bytes
        → (i < num_slots m' page) × Stored m' page i bytes
    Stored-page i bytes h s =
        let t =
          Stacked-at m page (free_offset m page) 0 (num_slots m page) (num_slots m page) page_size
            false (omega arith) valid.stacked i (omega arith) h s.live in
        (
          omega (arith, word_agree 12 (omega arith)),
          Stored-Agree m m' page i bytes 0 page_size (slots_agree i (omega arith) h)
              (λ x a b. same x (omega arith) b) (omega arith) (omega (arith, t.under, s.sized)) s,
        )

-- Two pages do not overlap.
pub pages_apart :
    (body : List ℕ)
    → AreApart body
    → (p q : ℕ) → p < length body * pages_per_segment
    → q < length body * pages_per_segment
    → p ≢ q
    → (page_address body p + page_size ≤ page_address body q)
      ⊎ (page_address body q + page_size ≤ page_address body p)
pages_apart body apart p q hp hq ne = elim (Bool-cases (p / 32 == q / 32)) [
  | inl same ↦
      let e : get_or body (p / 32) 0 ≡ get_or body (q / 32) 0 =
        ap (λ k. get_or body k 0) (ground arith) in
      let d : p / 32 ≡ q / 32 = ground arith in omega arith
  | inr other ↦ let d : p / 32 ≢ q / 32 = ground arith in omega (arith, apart (p / 32) (q / 32))
]

pub page_to_offset-some :
    (f : DmsFile) (p : ℕ) → p < num_pages f → page_to_offset f p ≡ some (page_address f.body p)
unfolding page_to_offset
page_to_offset-some f p h = ground arith
