-- ===== src/MmapFile.antt =====
-- oss/ossMmapFile.cpp: a file and the parts of it that are mapped, with `Open` and `Close` of
-- oss/ossPrimitiveFileOp.cpp. What the system answers is an argument.
pub mod Regions
use emeralddb_src.Base.{
  ℕ, ◌+◌, ◌/◌, ◌%◌, Bool, true, false, not, ◌&&◌, List, [], ◌∷◌, ◌++◌, map, Option, none, some, ltb,
  ◌==◌, if◌then◌else◌,
}
use emeralddb_src.Core.{Rc, ok, invalidarg, oom, perm, sys, errno, is_error}
use emeralddb_src.Dms.Extend.{Mapped, mapped, map_failed}

-- OSS_PRIMITIVE_FILE_OP_READ_ONLY and the others: the number of the bit
abbrev pub read_only : ℕ
read_only = 1

abbrev pub write_only : ℕ
write_only = 2

abbrev pub open_existing : ℕ
open_existing = 3

abbrev pub open_always : ℕ
open_always = 4

abbrev pub open_trunc : ℕ
open_trunc = 5

-- O_RDONLY, O_WRONLY and O_RDWR
pub data Access : Type 0 where
  reads writes reads_writes : Access

-- The mode of `Open`, with O_CREAT and O_TRUNC
pub record Mode : Type 0 where
  pub access : Access
  pub creates : Bool
  pub truncates : Bool

-- options & (1 << bit)
unfoldable pub has_option : ℕ → ℕ → Bool
has_option options bit =
    (if bit == read_only
        then options / 2
        else if bit == write_only
        then options / 4
        else if bit == open_existing
        then options / 8
        else if bit == open_always
        then options / 16
        else options / 32)
      % 2
    == 1

-- `Open` before its loop
unfoldable pub open_mode : ℕ → Mode
open_mode options = record {
  access =
      if has_option options read_only
      then reads
      else if has_option options write_only
      then writes
      else reads_writes;
  creates = if has_option options open_existing then false else has_option options open_always;
  truncates = has_option options open_trunc;
}

-- One call of open: a handle, a signal interrupts it, or it fails.
pub data OpenAnswer : Type 0 where
  opened : ℕ → OpenAnswer
  interrupted : OpenAnswer
  open_fails : ℕ → OpenAnswer

-- The loop of `Open`: the code and the handle, OSS_INVALID_HANDLE_FD_VALUE as `none`
unfoldable pub open_handle : List OpenAnswer → Option (Rc × Option ℕ)
open_handle [] = none
open_handle (opened h ∷ rest) = some (ok, some h)
open_handle (interrupted ∷ rest) = open_handle rest
open_handle (open_fails e ∷ rest) = some (errno e, none)

-- ossPrimitiveFileOp
pub record FileHandle : Type 0 where
  pub handle : Option ℕ
  pub is_stdout : Bool

-- isValid
abbrev pub is_valid : FileHandle → Bool
is_valid f = elim f.handle [ none ↦ false | some h ↦ true ]

-- Close
unfoldable pub close_handle : FileHandle → FileHandle
close_handle f = if is_valid f && not f.is_stdout then record f { handle = none } else f

-- openStdout
unfoldable pub open_stdout : FileHandle → FileHandle
open_stdout f = record { handle = some 1; is_stdout = true }

-- ossMmapSegment
pub record Segment : Type 0 where
  pub ptr : ℕ
  pub size : ℕ
  pub offset : ℕ

-- ossMmapFile
pub record MmapFile : Type 0 where
  pub file_op : FileHandle
  pub is_opened : Bool
  pub segments : List Segment

abbrev pub new_mmap_file : MmapFile
new_mmap_file = record {
  file_op = record { handle = none; is_stdout = false };
  is_opened = false;
  segments = [];
}

-- ossMmapFile::open, with the result of Open
unfoldable pub open_mmap : Rc × Option ℕ → MmapFile → Rc × MmapFile
open_mmap (rc, h) f =
    let g = record f { file_op = record f.file_op { handle = h } } in
    if is_error rc then (rc, g) else (rc, record g { is_opened = true })

-- The parts that `close` unmaps
abbrev pub region : Segment → ℕ × ℕ
region s = (s.ptr, s.size)

-- ossMmapFile::close: what it unmaps, and the file
unfoldable pub close_mmap : MmapFile → List (ℕ × ℕ) × MmapFile
close_mmap f =
    let unmapped = map region f.segments in
    if f.is_opened
    then (unmapped, record { file_op = close_handle f.file_op; is_opened = false; segments = [] })
    else (unmapped, record f { segments = [] })

-- ossMmapFile::map from the call of mmap on: the code, what it maps, and the file
unfoldable pub use_mapped : Mapped → ℕ → ℕ → MmapFile → Rc × List (ℕ × ℕ) × MmapFile
use_mapped (mapped a) offset length f =
    let s : Segment = record { ptr = a; size = length; offset = offset } in
    (ok, (a, length) ∷ [], record f { segments = f.segments ++ s ∷ [] })
use_mapped (map_failed e) offset length f =
    (if e == 12 then oom else if e == 13 then perm else sys, [], f)

-- ossMmapFile::map, with the result of getSize and that of mmap. The sum of offset and length is an unsigned
-- long long.
unfoldable pub map_mmap : Rc × ℕ → Mapped → ℕ → ℕ → MmapFile → Rc × List (ℕ × ℕ) × MmapFile
map_mmap (size_rc, file_size) answer offset length f =
    if length == 0
    then (ok, [], f)
    else if is_error size_rc
    then (size_rc, [], f)
    else if ltb file_size ((offset + length) % 18446744073709551616)
    then (invalidarg, [], f)
    else use_mapped answer offset length f
