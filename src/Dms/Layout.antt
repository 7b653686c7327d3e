-- ===== src/Dms/Layout.antt =====
-- include/dms.hpp and include/dmsRecord.hpp: sizes, flags, and the fields of a page by their offsets.
use emeralddb_src.Base.{ℕ, ◌+◌, ◌-◌, ◌*◌, Bool, ◌&&◌, ◌==◌}
use emeralddb_src.Memory.{Mem, load32}

pub record RecordId : Type 0 where
  pub page_id : ℕ
  pub slot_id : ℕ

abbrev pub page_size : ℕ
page_size = 4194304

abbrev pub segment_size : ℕ
segment_size = 134217728

abbrev pub file_header_size : ℕ
file_header_size = 65536

abbrev pub extend_size : ℕ
extend_size = 65536

abbrev pub pages_per_segment : ℕ
pages_per_segment = 32

-- sizeof (dmsHeader), sizeof (dmsPageHeader), sizeof (dmsRecord), sizeof (SLOTOFF)
abbrev pub header_size : ℕ
header_size = 16

abbrev pub page_header_size : ℕ
page_header_size = 28

abbrev pub record_header_size : ℕ
record_header_size = 8

abbrev pub slot_size : ℕ
slot_size = 4

abbrev pub max_record : ℕ
max_record = page_size - header_size - record_header_size - slot_size

abbrev pub slot_empty : ℕ
slot_empty = 0xFFFFFFFF

abbrev pub flag_normal : ℕ
flag_normal = 0

abbrev pub flag_dropped : ℕ
flag_dropped = 1

-- memcmp (_eyeCatcher, "PAGH", 4) == 0
abbrev pub has_eye_catcher : Mem → ℕ → Bool
has_eye_catcher m page =
    m page == b'P' && (m (page + 1) == b'A' && (m (page + 2) == b'G' && m (page + 3) == b'H'))

-- The fields of `dmsPageHeader` at `page`.
abbrev pub num_slots : Mem → ℕ → ℕ
num_slots m page = load32 m (page + 12)

abbrev pub slot_offset : Mem → ℕ → ℕ
slot_offset m page = load32 m (page + 16)

abbrev pub free_space : Mem → ℕ → ℕ
free_space m page = load32 m (page + 20)

abbrev pub free_offset : Mem → ℕ → ℕ
free_offset m page = load32 m (page + 24)

-- The address of a slot, and the offset that it holds.
abbrev pub slot_address : ℕ → ℕ → ℕ
slot_address page i = page + page_header_size + i * slot_size

abbrev pub slot_at : Mem → ℕ → ℕ → ℕ
slot_at m page i = load32 m (slot_address page i)

-- The fields of the `dmsRecord` at an offset of the page.
abbrev pub record_size : Mem → ℕ → ℕ → ℕ
record_size m page slot = load32 m (page + slot)

abbrev pub record_flag : Mem → ℕ → ℕ → ℕ
record_flag m page slot = load32 m (page + slot + 4)
