-- ===== src/Dms/Open/Load.antt =====
-- The entries that `_loadData` of dms/dms.cpp makes in the free-space map.
use emeralddb_src.Base.{
  ℕ, zero, suc, ◌+◌, ◌*◌, ◌/◌, ◌%◌, ◌≤◌, ◌≡◌, refl, ◌∙◌, inl, inr, Option-cases, arith, ltb, ◌==◌,
  if_cases, not,
}
use emeralddb_src.Core.{Rc}
use emeralddb_src.Memory.{Mem, load32}
use emeralddb_src.Dms.Layout.{
  page_size, free_space, segment_size, pages_per_segment, file_header_size,
}
use emeralddb_src.Dms.FreeSpace.{FreeSpaceMap, insert}
use emeralddb_src.Dms.FreeSpace.Index.{count, count-insert}
use emeralddb_src.Dms.File.{DmsFile}
use emeralddb_src.Dms.Extend.{Os}
use emeralddb_src.Dms.Open.{
  load_pages, load_segments, load_body, load_data, map_file, segment_offset,
}

count-load_pages :
    (q : ℕ) (m : Mem) (start : ℕ) (map : FreeSpaceMap) (k left : ℕ)
    → k + left ≤ q
    → count q (load_pages m start map k left) ≡ count q map
unfolding load_pages
count-load_pages q m start map k zero h = refl
count-load_pages q m start map k (suc left) h =
    let e = free_space m (start + k * page_size) in
    ground (arith, count-load_pages q m start (insert e k map) (k + 1) left, count-insert q e k map)

count-load_segments :
    (q : ℕ) (os : ℕ → Os) (disk : ℕ → ℕ) (i left : ℕ) (f : DmsFile)
    → 32 ≤ q
    → count q (load_segments os disk i left f).1.free_space_map ≡ count q f.free_space_map
unfolding load_segments
count-load_segments q os disk i zero f h = refl
count-load_segments q os disk i (suc left) f h =
    elim (Option-cases (map_file (os i) disk f (segment_offset i) segment_size).1) [
      | inl n ↦ rw (n, load_segments) refl
      | inr ((a, m), e) ↦
          rw (e, load_segments)
            (count-load_segments q os disk (i + 1) left _ h
              ∙ count-load_pages q m a f.free_space_map 0 pages_per_segment h)
    ]

count-load_body :
    (q : ℕ) (os : ℕ → Os) (disk : ℕ → ℕ) (h : ℕ) (f : DmsFile)
    → 32 ≤ q
    → count q (load_body os disk h f).1.free_space_map ≡ count q f.free_space_map
unfolding load_body
count-load_body q os disk h f b =
    let pages = load32 f.mem (h + 4) in
    let P : Rc × DmsFile → Type 0 = λ r. count q r.1.free_space_map ≡ count q f.free_space_map in
    if_cases P (not (pages % pages_per_segment == 0)) _ _ (λ e. refl)
      λ e.
        if_cases P (ltb pages 2147483648) _ _
          (λ l. count-load_segments q os disk 0 (pages / pages_per_segment) f b) (λ l. refl)

-- Whatever the file on disk and the answers of the system, `_loadData` enters no page but the first 32 into
-- the free-space map.
pub count-load_data :
    (q : ℕ) (header_os : Os) (os : ℕ → Os) (disk : ℕ → ℕ) (f : DmsFile)
    → 32 ≤ q
    → count q (load_data header_os os disk f).1.free_space_map ≡ count q f.free_space_map
unfolding load_data
count-load_data q header_os os disk f b = elim (Option-cases f.header) [
  | inr (h, e) ↦ rw (e, load_data) (count-load_body q os disk h f b)
  | inl n ↦ elim (Option-cases (map_file header_os disk f 0 file_header_size).1) [
    | inl k ↦ rw (n, load_data) (rw k refl)
    | inr ((h, m), k) ↦ rw (n, load_data) (rw k (count-load_body q os disk h _ b))
  ]
]
