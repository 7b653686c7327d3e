-- ===== src/Dms/Extend/Index.antt =====
-- The entries that `_extendSegment` of dms/dms.cpp makes in the free-space map.
use emeralddb_src.Base.{
  ℕ, zero, suc, ◌+◌, ◌≤◌, ◌<◌, ◌≡◌, sym, inl, inr, Bool-cases, arith, ltb, leb, if◌then◌else◌, ◌&&◌,
  length,
}
use emeralddb_src.Dms.FreeSpace.{FreeSpaceMap, insert}
use emeralddb_src.Dms.FreeSpace.Index.{
  Entries, count, IsIndex, count-insert, length-insert, insert-Entries, Entries-wider, count_beyond,
}
use emeralddb_src.Dms.Extend.{add_pages}

pub add_pages-Entries :
    (space : ℕ → ℕ) (n : ℕ) (map : FreeSpaceMap) (page_id left : ℕ)
    → ((q : ℕ) → page_id ≤ q → q < page_id + left → (q < n) × (4194276 ≡ space q))
    → Entries space n map
    → Entries space n (add_pages map page_id left)
unfolding add_pages
add_pages-Entries space n map page_id zero new h = h
add_pages-Entries space n map page_id (suc left) new h =
    let e = new page_id (omega arith) (omega arith) in
    add_pages-Entries space n (insert 4194276 page_id map) (page_id + 1) left
      (λ q a b. new q (omega arith) (omega arith))
      (insert-Entries space n 4194276 page_id map e.0 e.1 h)

pub count-add_pages :
    (q : ℕ) (map : FreeSpaceMap) (page_id left : ℕ)
    → count q (add_pages map page_id left)
      ≡ (if leb page_id q && ltb q (page_id + left) then 1 else 0) + count q map
unfolding add_pages
count-add_pages q map page_id zero = ground arith
count-add_pages q map page_id (suc left) = ground (
  arith,
  count-add_pages q (insert 4194276 page_id map) (page_id + 1) left,
  count-insert q 4194276 page_id map,
)

pub length-add_pages :
    (map : FreeSpaceMap) (page_id left : ℕ)
    → length (add_pages map page_id left) ≡ length map + left
unfolding add_pages
length-add_pages map page_id zero = omega arith
length-add_pages map page_id (suc left) = omega (
  arith,
  length-add_pages (insert 4194276 page_id map) (page_id + 1) left,
  length-insert 4194276 page_id map,
)

-- The loop of `_extendSegment` over the new pages, numbered from the number of entries on, takes an index
-- of the pages there were to an index of the old and the new pages, if the new pages are empty and the
-- free space of the old ones is as before.
pub add_pages-IsIndex :
    (space space' : ℕ → ℕ) (map : FreeSpaceMap) (n left : ℕ)
    → IsIndex space n map
    → ((q : ℕ) → q < n → space' q ≡ space q)
    → ((q : ℕ) → n ≤ q → q < n + left → space' q ≡ 4194276)
    → IsIndex space' (n + left) (add_pages map (length map) left)
add_pages-IsIndex space space' map n left i old new = record {
  sound =
      add_pages-Entries space' (n + left) map (length map) left
        (λ q a b.
          (omega (arith, i.size), sym (new q (omega (arith, i.size)) (omega (arith, i.size)))))
        (Entries-wider space space' n (n + left) map (omega arith) old i.sound);
  once = λ q h. elim (Bool-cases (ltb q n)) [
    | inl known ↦ ground (arith, count-add_pages q map (length map) left, i.once q, i.size)
    | inr other ↦
        ground (
          arith,
          count-add_pages q map (length map) left,
          count_beyond space n q map i.sound,
          i.size,
        )
  ];
  size = omega (arith, length-add_pages map (length map) left, i.size);
}
