-- ===== src/Dms/Open.antt =====
-- dms/dms.cpp: `initialize`, which opens a file, with `_initNew` and `_loadData`. What the operating system
-- answers, and the bytes of the file on disk, are arguments.
pub mod Mapping
pub mod Load
pub mod New
pub mod Reopen
use emeralddb_src.Base.{
  Bool, ℕ, zero, suc, ◌+◌, ◌-◌, ◌*◌, ◌/◌, ◌%◌, not, ◌&&◌, List, [], ◌∷◌, ◌++◌, Option, none, some,
  ltb, leb, ◌==◌, if◌then◌else◌,
}
use emeralddb_src.Core.{Rc, ok, sys, oom, perm, invalidarg, is_error}
use emeralddb_src.Memory.{Mem, load32, store32, copy}
use emeralddb_src.Dms.Layout.{
  page_size, segment_size, file_header_size, pages_per_segment, free_space,
}
use emeralddb_src.Dms.FreeSpace.{FreeSpaceMap, insert}
use emeralddb_src.Dms.File.{DmsFile}
use emeralddb_src.Dms.Extend.{Os, mapped, map_failed, extend_file}

-- The memory after the mapping of `n` bytes of the file from `offset` on.
unfoldable pub map_bytes : (ℕ → ℕ) → ℕ → Mem → ℕ → ℕ → Mem
map_bytes disk offset m a n x = if leb a x && ltb x (a + n) then disk (offset + (x - a)) else m x

-- `ossMmapFile::map` of a part of the file: the address and the memory.
unfoldable pub map_file : Os → (ℕ → ℕ) → DmsFile → ℕ → ℕ → Rc × Option (ℕ × Mem)
map_file os disk f offset n =
    if is_error os.size_for_map
    then (os.size_for_map, none)
    else if ltb f.file_size (offset + n)
    then (invalidarg, none)
    else elim os.mmap [
      | mapped a ↦ (ok, some (a, map_bytes disk offset f.mem a n))
      | map_failed e ↦ (if e == 12 then oom else if e == 13 then perm else sys, none)
    ]

-- `_initNew`, from the copy of the eye catcher on
unfoldable pub init_header : Mem → ℕ → Mem
init_header m h =
    let m1 = copy m h (b'D' ∷ b'M' ∷ b'S' ∷ b'H' ∷ 0 ∷ []) in
    let m2 = store32 m1 (h + 4) 0 in let m3 = store32 m2 (h + 8) 0 in store32 m3 (h + 12) 0

-- `_initNew` after `_extendFile`, with its result
unfoldable pub use_header : Os → (ℕ → ℕ) → DmsFile → Rc × ℕ → Rc × DmsFile
use_header os disk f (rc, size) =
    let f1 = record f { file_size = size } in
    let (map_rc, header) = map_file os disk f1 0 file_header_size in
    if is_error rc then (rc, f1) else elim header [
      | none ↦ (map_rc, f1)
      | some (h, m) ↦ (ok, record f1 { mem = init_header m h; header = some h })
    ]

-- `_initNew`
unfoldable pub init_new : Os → (ℕ → ℕ) → DmsFile → Rc × DmsFile
init_new os disk f = use_header os disk f (extend_file os.writes file_header_size f.file_size)

-- The offset of segment `i`, which is computed in int and converted to unsigned long long.
unfoldable pub segment_offset : ℕ → ℕ
segment_offset i =
    let v = (file_header_size + segment_size * i) % 4294967296 in
    if ltb v 2147483648 then v else v + 18446744069414584320

-- `_loadData`, the loop over the pages of the segment at `start`, from page `k` on
unfoldable pub load_pages : Mem → ℕ → FreeSpaceMap → ℕ → ℕ → FreeSpaceMap
load_pages m start map k zero = map
load_pages m start map k (suc left) =
    load_pages m start (insert (free_space m (start + k * page_size)) k map) (k + 1) left

-- `_loadData`, the loop over the segments left, from segment `i` on
unfoldable pub load_segments : (ℕ → Os) → (ℕ → ℕ) → ℕ → ℕ → DmsFile → Rc × DmsFile
load_segments os disk i zero f = (ok, f)
load_segments os disk i (suc left) f =
    let (rc, segment) = map_file (os i) disk f (segment_offset i) segment_size in
    elim segment [
      | none ↦ (rc, f)
      | some (a, m) ↦ load_segments os disk (i + 1) left (record f {
        mem = m;
        body = f.body ++ a ∷ [];
        free_space_map = load_pages m a f.free_space_map 0 pages_per_segment;
      })
    ]

-- `_loadData`, once the header is mapped at `h`. The number of pages is an int.
unfoldable pub load_body : (ℕ → Os) → (ℕ → ℕ) → ℕ → DmsFile → Rc × DmsFile
load_body os disk h f =
    let pages = load32 f.mem (h + 4) in
    if not (pages % pages_per_segment == 0)
    then (sys, f)
    else if ltb pages 2147483648
    then load_segments os disk 0 (pages / pages_per_segment) f
    else (ok, f)

-- `_loadData`; `header_os` answers the mapping of the header.
unfoldable pub load_data : Os → (ℕ → Os) → (ℕ → ℕ) → DmsFile → Rc × DmsFile
load_data header_os os disk f = elim f.header [
  | some h ↦ load_body os disk h f
  | none ↦
      let (rc, header) = map_file header_os disk f 0 file_header_size in
      elim header [
        | none ↦ (rc, f)
        | some (h, m) ↦ load_body os disk h (record f { mem = m; header = some h })
      ]
]

-- What the system answers to one `initialize`: to strdup, to the opening of the file, and to the mappings.
pub record Opening : Type 0 where
  pub name_copied : Bool
  pub opened : Rc
  pub init_os : Os
  pub header_os : Os
  pub segment_os : ℕ → Os

-- `initialize` from `getfilesize` on, over the answers of getSize; `none` if they do not suffice.
unfoldable pub size_loop : Opening → (ℕ → ℕ) → List Rc → DmsFile → Option (Rc × DmsFile)
size_loop o disk [] f = none
size_loop o disk (rc ∷ rest) f =
    let (init_rc, g) = init_new o.init_os disk f in
    let later = size_loop o disk rest g in
    if is_error rc
    then some (rc, f)
    else if f.file_size == 0
    then (if is_error init_rc then some (init_rc, g) else later)
    else some (load_data o.header_os o.segment_os disk f)

-- `initialize`
unfoldable pub initialize : Opening → (ℕ → ℕ) → List Rc → DmsFile → Option (Rc × DmsFile)
initialize o disk sizes f =
    if not o.name_copied
    then some (oom, f)
    else if is_error o.opened
    then some (o.opened, f)
    else size_loop o disk sizes f

-- dmsFile (), in the memory of the process, with the length of the file on disk
abbrev pub new_file : Mem → ℕ → DmsFile
new_file m size = record {
  mem = m;
  header = none;
  body = [];
  free_space_map = [];
  file_size = size;
}
