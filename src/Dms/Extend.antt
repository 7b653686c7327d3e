-- ===== src/Dms/Extend.antt =====
-- dms/dms.cpp: `_extendFile` and `_extendSegment`, which grow the file by a segment. What the
-- operating system answers is an argument.
pub mod Index
pub mod Fresh
pub mod Segment
pub mod Extended
use emeralddb_src.Base.{
  ℕ, zero, suc, ◌+◌, ◌-◌, ◌/◌, ◌%◌, not, ◌&&◌, [], ◌∷◌, ◌++◌, Option, none, some, ltb, leb, ◌==◌,
  if◌then◌else◌, length,
}
use emeralddb_src.Core.{Rc, ok, sys, oom, perm, invalidarg, errno, is_error}
use emeralddb_src.Memory.{Mem, load32, store32, copy, add32}
use emeralddb_src.Dms.Layout.{
  page_size, page_header_size, segment_size, extend_size, pages_per_segment,
}
use emeralddb_src.Dms.FreeSpace.{FreeSpaceMap, insert}
use emeralddb_src.Dms.File.{DmsFile}

-- One `_fileOp.Write` of a block: all of it, or an error after some bytes.
pub data Written : Type 0 where
  whole : Written
  failed : ℕ → ℕ → Written

-- One `mmap`: the address, or `errno`.
pub data Mapped : Type 0 where
  mapped : ℕ → Mapped
  map_failed : ℕ → Mapped

-- What the system answers to the calls of one `_extendSegment`.
pub record Os : Type 0 where
  pub size_before : Rc
  pub writes : ℕ → Written
  pub size_for_map : Rc
  pub mmap : Mapped

-- The loop of `_extendFile` over the blocks left; the new length of the file.
unfoldable pub write_blocks : (ℕ → Written) → ℕ → ℕ → ℕ → Rc × ℕ
write_blocks writes i zero size = (ok, size)
write_blocks writes i (suc left) size = elim (writes i) [
  | whole ↦ write_blocks writes (i + 1) left (size + extend_size)
  | failed e n ↦ (errno e, size + n)
]

-- `_extendFile`
unfoldable pub extend_file : (ℕ → Written) → ℕ → ℕ → Rc × ℕ
unfolding write_blocks
extend_file writes bytes size =
    if not (bytes % extend_size == 0)
    then (sys, size)
    else write_blocks writes 0 (bytes / extend_size) size

-- The memory after the mapping of a part of the file that holds zeros.
unfoldable pub map_zeros : Mem → ℕ → ℕ → Mem
map_zeros m a n x = if leb a x && ltb x (a + n) then 0 else m x

-- `ossMmapFile::map` of a part of the file that holds zeros: the address and the memory.
unfoldable pub map_segment : Os → DmsFile → ℕ → ℕ → Rc × Option (ℕ × Mem)
map_segment os f offset n =
    if is_error os.size_for_map
    then (os.size_for_map, none)
    else if ltb f.file_size (offset + n)
    then (invalidarg, none)
    else elim os.mmap [
      | mapped a ↦ (ok, some (a, map_zeros f.mem a n))
      | map_failed e ↦ (if e == 12 then oom else if e == 13 then perm else sys, none)
    ]

-- The page header that `_extendSegment` copies to the start of a page.
unfoldable pub init_page : Mem → ℕ → Mem
init_page m page =
    let m1 = copy m page (b'P' ∷ b'A' ∷ b'G' ∷ b'H' ∷ []) in
    let m2 = store32 m1 (page + 4) page_size in
    let m3 = store32 m2 (page + 8) 0 in
    let m4 = store32 m3 (page + 12) 0 in
    let m5 = store32 m4 (page + 16) page_header_size in
    let m6 = store32 m5 (page + 20) (page_size - page_header_size) in
    store32 m6 (page + 24) page_size

-- The loop over the pages of the segment at `data`.
unfoldable pub init_pages : Mem → ℕ → ℕ → Mem
init_pages m start zero = m
init_pages m start (suc left) = init_pages (init_page m start) (start + page_size) left

-- The loop that enters the pages into the free-space map.
unfoldable pub add_pages : FreeSpaceMap → ℕ → ℕ → FreeSpaceMap
add_pages map page_id zero = map
add_pages map page_id (suc left) =
    add_pages (insert (page_size - page_header_size) page_id map) (page_id + 1) left

-- `_extendSegment`, once the segment is mapped at `a`. The header is mapped before any extension.
unfoldable pub add_segment : DmsFile → ℕ → Mem → DmsFile
add_segment f a m =
    let pages = init_pages m a pages_per_segment in
    record f {
      mem = elim f.header [
        | none ↦ pages
        | some h ↦ store32 pages (h + 4) (add32 (load32 pages (h + 4)) pages_per_segment)
      ];
      free_space_map = add_pages f.free_space_map (length f.free_space_map) pages_per_segment;
      body = f.body ++ a ∷ [];
    }

-- `_extendSegment` after `_extendFile`, with its result
unfoldable pub use_extension : Os → DmsFile → Rc × ℕ → Rc × DmsFile
use_extension os f (rc, size) =
    let f1 = record f { file_size = size } in
    let (map_rc, segment) = map_segment os f1 f.file_size segment_size in
    if is_error rc
    then (rc, f1)
    else elim segment [ none ↦ (map_rc, f1) | some (a, m) ↦ (ok, add_segment f1 a m) ]

-- `_extendSegment`
unfoldable pub extend_segment : Os → DmsFile → Rc × DmsFile
extend_segment os f =
    if is_error os.size_before
    then (os.size_before, f)
    else use_extension os f (extend_file os.writes segment_size f.file_size)
