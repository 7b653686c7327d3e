-- ===== src/Dms/Open/Reopen.antt =====
-- `_loadData` of dms/dms.cpp on a file of one segment that was written before.
use emeralddb_src.Base.{
  ℕ, zero, suc, ◌+◌, ◌-◌, ◌*◌, ◌/◌, ◌%◌, ◌≤◌, ◌<◌, ◌≡◌, refl, ap, subst, sym, ◌∙◌, ◌⊎◌, inl, inr,
  Option, none, some, List, [], ◌∷◌, arith, true, false, ◌==◌, get_or,
}
use emeralddb_src.Core.{Rc, ok, is_error}
use emeralddb_src.Memory.{Mem, load32, load32_shift}
use emeralddb_src.Dms.Layout.{
  RecordId, page_size, segment_size, file_header_size, pages_per_segment, free_space,
}
use emeralddb_src.Dms.FreeSpace.{FreeSpaceMap, insert}
use emeralddb_src.Dms.FreeSpace.Index.{IsIndex, insert_next-IsIndex}
use emeralddb_src.Dms.Page.Moved.{IsCopy, IsPage-moved, Stored-copied}
use emeralddb_src.Dms.File.{DmsFile, num_pages}
use emeralddb_src.Dms.File.Invariant.{IsFile, StoredAt, space_of, page_address}
use emeralddb_src.Dms.Extend.{Os, mapped}
use emeralddb_src.Dms.Extend.Segment.{HeaderApart}
use emeralddb_src.Dms.Open.Mapping.{Maps, map_file-Maps}
use emeralddb_src.Dms.Open.{
  map_bytes, map_file, load_pages, load_segments, load_body, load_data, Opening, size_loop,
  initialize, segment_offset, new_file,
}

load_pages-IsIndex :
    (space : ℕ → ℕ) (m : Mem) (start : ℕ) (map : FreeSpaceMap) (k left : ℕ)
    → ((q : ℕ) → q < k + left → free_space m (start + q * page_size) ≡ space q)
    → IsIndex space k map
    → IsIndex space (k + left) (load_pages m start map k left)
unfolding load_pages
load_pages-IsIndex space m start map k zero e i =
    let same : k ≡ k + 0 = omega arith in subst (λ n. IsIndex space n map) same i
load_pages-IsIndex space m start map k (suc left) e i =
    let more : k + 1 + left ≡ k + suc left = omega arith in
    let s = free_space m (start + k * page_size) in
    subst (λ n. IsIndex space n (load_pages m start (insert s k map) (k + 1) left)) more
      (load_pages-IsIndex space m start (insert s k map) (k + 1) left (λ q h. e q (omega arith))
        (insert_next-IsIndex space k s map (e k (omega arith)) i))

-- The disk holds the mapped header of the file, which counts 32 pages, and behind it its one segment.
pub record IsSaved (f : DmsFile) (disk : ℕ → ℕ) (h a : ℕ) : Type 0 where
  pub header : f.header ≡ some h
  pub one : f.body ≡ a ∷ []
  pub count : load32 f.mem (h + 4) ≡ pages_per_segment
  pub header_saved : (k : ℕ) → k < file_header_size → disk k ≡ f.mem (h + k)
  pub segment_saved : (k : ℕ) → k < segment_size → disk (file_header_size + k) ≡ f.mem (a + k)

mapped_byte :
    (disk : ℕ → ℕ) (offset : ℕ) (m : Mem) (a n k : ℕ)
    → k < n
    → map_bytes disk offset m a n (a + k) ≡ disk (offset + k)
unfolding map_bytes
mapped_byte disk offset m a n k h =
    let e : offset + (a + k - a) ≡ offset + k = omega arith in ground (arith, ap disk e)

-- What the file that was saved and the one that is read again have in common.
abbrev pub Restores : DmsFile → DmsFile → Type 0
Restores f g =
    IsFile g
    × HeaderApart g
    × (num_pages g ≡ num_pages f)
    × ((rid : RecordId) (bytes : List ℕ) → StoredAt f rid bytes → StoredAt g rid bytes)

-- The file read again, or an error.
abbrev pub Reopened : DmsFile → Rc × DmsFile → Type 0
Reopened f (rc, g) = (is_error rc ≡ true) ⊎ (rc ≡ ok) × Restores f g

module _ (f : DmsFile) (disk : ℕ → ℕ) (h a : ℕ) (valid : IsFile f) (saved : IsSaved f disk h a)
    (m : Mem) (header : Option ℕ) (size b : ℕ)
    (clear : (t : ℕ) → header ≡ some t → (t + 16 ≤ b) ⊎ (b + segment_size ≤ t)) where
  abbrev reread : Mem
  reread = map_bytes disk file_header_size m b segment_size

  abbrev again : DmsFile
  again = record {
    mem = reread;
    header = header;
    body = b ∷ [];
    free_space_map = load_pages reread b [] 0 pages_per_segment;
    file_size = size;
  }

  pages_there : num_pages f ≡ 32
  pages_there = rw (saved.one) refl

  address_there : (p : ℕ) → p < 32 → page_address f.body p ≡ a + p * page_size
  address_there p h = rw (saved.one) (
      let e : p / 32 ≡ 0 = omega arith in
      let d : p % 32 ≡ p = omega arith in rw (e, d) (omega arith))

  address_again : (p : ℕ) → p < 32 → page_address (b ∷ []) p ≡ b + p * page_size
  address_again p h =
      let e : p / 32 ≡ 0 = omega arith in
      let d : p % 32 ≡ p = omega arith in rw (e, d) (omega arith)

  page_copied :
      (p : ℕ) → p < 32 → IsCopy f.mem (page_address f.body p) reread (page_address (b ∷ []) p)
  page_copied p h k l =
      ap reread (omega (arith, address_again p h))
      ∙ mapped_byte disk file_header_size m b segment_size (p * page_size + k) (omega arith)
      ∙ saved.segment_saved (p * page_size + k) (omega arith)
      ∙ ap f.mem (omega (arith, address_there p h))

  again-IsFile : IsFile again
  again-IsFile = record {
    pages = λ p h.
        IsPage-moved f.mem (page_address f.body p) reread (page_address (b ∷ []) p)
          (page_copied p h) (valid.pages p (omega (arith, pages_there)));
    apart = λ i j h k ne. absurd (ne (omega arith));
    index =
        load_pages-IsIndex (space_of reread (b ∷ [])) reread b [] 0 32
          (λ q h. ap (free_space reread) (sym (address_again q h)))
          (record { sound = tt; once = λ p h. absurd (omega arith); size = refl });
  }

  again-StoredAt :
      (rid : RecordId) (bytes : List ℕ) → StoredAt f rid bytes → StoredAt again rid bytes
  again-StoredAt rid bytes s =
      let p = rid.page_id in
      let bound : p < 32 = omega (arith, s.page_bound, pages_there) in
      let r =
        Stored-copied f.mem (page_address f.body p) reread (page_address (b ∷ []) p)
          (page_copied p bound) (valid.pages p s.page_bound) rid.slot_id bytes s.slot_bound
          s.stored in
      record { page_bound = bound; slot_bound = r.0; stored = r.1 }

  again-Restores : Restores f again
  again-Restores = (
    again-IsFile,
    (λ i h t e.
        subst (λ j. (t + 16 ≤ get_or (b ∷ []) j 0) ⊎ (get_or (b ∷ []) j 0 + segment_size ≤ t))
          (first i h) (clear t e)),
    sym pages_there,
    again-StoredAt,
  )
    where
      first : (i : ℕ) → i < 1 → 0 ≡ i
      first i h = omega arith

-- The mapped header and the mapped segment do not overlap.
abbrev pub AnswersApart : Os → (ℕ → Os) → Type 0
AnswersApart header_os os =
    (t b : ℕ)
    → header_os.mmap ≡ mapped t
    → (os 0).mmap ≡ mapped b
    → (t + 16 ≤ b) ⊎ (b + segment_size ≤ t)

module _ (f : DmsFile) (disk : ℕ → ℕ) (h a : ℕ) (valid : IsFile f) (saved : IsSaved f disk h a)
    (header_os : Os) (os : ℕ → Os) (apart : AnswersApart header_os os) (m : Mem) (size : ℕ) where
  abbrev unread : DmsFile
  unread = new_file m size

  module _ (t : ℕ) (at : header_os.mmap ≡ mapped t) where
    abbrev headed : DmsFile
    headed = record unread { mem = map_bytes disk 0 m t file_header_size; header = some t }

    header_count : load32 headed.mem (t + 4) ≡ 32
    header_count =
        load32_shift f.mem headed.mem h t 65536 4 (t + 4) (h + 4)
          (λ k l.
            let none_skipped : 0 + k ≡ k = omega arith in
            mapped_byte disk 0 m t file_header_size k l
            ∙ ap disk none_skipped
            ∙ saved.header_saved k l)
          (omega arith) refl refl
        ∙ saved.count

    segment_read :
        (r : Rc × Option (ℕ × Mem))
        → Maps (os 0) disk headed file_header_size segment_size r
        → Reopened f (elim r.1 as (λ _. Rc × DmsFile) [
          | none ↦ (r.0, headed)
          | some (b, m) ↦ (
            ok,
            record headed {
              mem = m;
              body = b ∷ [];
              free_space_map = load_pages m b [] 0 pages_per_segment;
            },
          )
        ])
    segment_read (rc, none) e = inl e
    segment_read (rc, some (b, n)) (e, there, bytes) = rw bytes (
        inr (
          refl,
          again-Restores f disk h a valid saved headed.mem (some t) size b
              (λ u e. apart u b (at ∙ ap mapped (some_inj e)) there),
        ))
      where
        some_inj : {x y : ℕ} → some x ≡ some y → x ≡ y
        some_inj e = cc

    load_body-Reopened : Reopened f (load_body os disk t headed)
    unfolding load_body load_segments segment_offset
    load_body-Reopened =
        rw (header_count, load_body)
          (segment_read _ (map_file-Maps (os 0) disk headed file_header_size segment_size))

  header_read :
      (r : Rc × Option (ℕ × Mem))
      → Maps header_os disk unread 0 file_header_size r
      → Reopened f (elim r.1 as (λ _. Rc × DmsFile) [
        | none ↦ (r.0, unread)
        | some (t, n) ↦ load_body os disk t (record unread { mem = n; header = some t })
      ])
  header_read (rc, none) e = inl e
  header_read (rc, some (t, n)) (e, there, bytes) = rw bytes (load_body-Reopened t there)

  -- `_loadData` reads the file again, or returns an error.
  pub load_data-Reopened : Reopened f (load_data header_os os disk (new_file m size))
  unfolding load_data
  load_data-Reopened = header_read _ (map_file-Maps header_os disk unread 0 file_header_size)

-- The system tells the length of the file, and maps the part asked for at `a`.
abbrev pub Places : Os → ℕ → Type 0
Places os a = (is_error os.size_for_map ≡ false) × (os.mmap ≡ mapped a)

map_file_placed :
    (os : Os) (disk : ℕ → ℕ) (f : DmsFile) (offset n a : ℕ)
    → Places os a
    → offset + n ≤ f.file_size
    → map_file os disk f offset n ≡ (ok, some (a, map_bytes disk offset f.mem a n))
unfolding map_file
map_file_placed os disk f offset n a (known, there) h = rw (known, there) (ground arith)

-- What `initialize` comes to on the saved file.
abbrev pub Restored : DmsFile → Option (Rc × DmsFile) → Type 0
Restored f none = ⊥
Restored f (some (rc, g)) = (rc ≡ ok) × Restores f g

module _ (f : DmsFile) (disk : ℕ → ℕ) (h a : ℕ) (valid : IsFile f) (saved : IsSaved f disk h a)
    (o : Opening) (t b : ℕ) where
  module _ (head : Places o.header_os t) (segment : Places (o.segment_os 0) b)
      (apart : (t + 16 ≤ b) ⊎ (b + segment_size ≤ t)) (m : Mem) (size : ℕ)
      (long : file_header_size + segment_size ≤ size) where
    mapped_apart : AnswersApart o.header_os o.segment_os
    mapped_apart u c e d =
        let same_header : t ≡ u = cc in let same_segment : b ≡ c = cc in omega arith

    load_data_placed : (load_data o.header_os o.segment_os disk (new_file m size)).0 ≡ ok
    unfolding load_data load_body load_segments segment_offset
    load_data_placed =
        let unread = new_file m size in
        let n = map_bytes disk 0 m t file_header_size in
        let headed : DmsFile = record unread { mem = n; header = some t } in
        let count =
          header_count f disk h a valid saved o.header_os o.segment_os mapped_apart m size t
            (head.1) in
        rw
          (
            map_file_placed o.header_os disk unread 0 file_header_size t head (omega arith),
            load_data,
          )
          (rw (count, load_body)
            (rw
              (
                map_file_placed (o.segment_os 0) disk headed file_header_size segment_size b segment
                    long,
                load_segments,
              )
              refl))

    load_data-Restored :
        Restored f (some (load_data o.header_os o.segment_os disk (new_file m size)))
    load_data-Restored =
        elim (load_data-Reopened f disk h a valid saved o.header_os o.segment_os mapped_apart m
          size) [ inl bad ↦ absurd (failed bad load_data_placed) | inr good ↦ good ]
      where
        failed : {rc : Rc} → is_error rc ≡ true → rc ≡ ok → ⊥
        failed bad e = cc

    -- initialize of the saved file of a well-formed file of one segment, where the system opens it,
    -- tells its length, of a segment with the header at least, and maps the header and the segment
    -- apart from one another, returns EDB_OK and a well-formed file with as many pages, in which
    -- every object is stored under the record id under which it was stored before.
    pub initialize-Restored :
        (first : Rc) (rest : List Rc)
        → o.name_copied ≡ true
        → is_error o.opened ≡ false
        → is_error first ≡ false
        → Restored f (initialize o disk (first ∷ rest) (new_file m size))
    unfolding initialize size_loop
    initialize-Restored first rest named opened known =
        let written : (size == 0) ≡ false = ground arith in
        rw (named, opened, known, written, initialize, size_loop) load_data-Restored
