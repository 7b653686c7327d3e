-- ===== src/Dms/Open/Mapping.antt =====
-- `ossMmapFile::map` of oss/ossMmapFile.cpp, as `_initNew` and `_loadData` of dms/dms.cpp call it.
use emeralddb_src.Base.{
  ℕ, ◌+◌, ◌≡◌, refl, Option, none, some, ltb, ◌==◌, if_cases, true, if◌then◌else◌,
}
use emeralddb_src.Core.{Rc, ok, oom, perm, sys, is_error}
use emeralddb_src.Memory.{Mem}
use emeralddb_src.Dms.File.{DmsFile}
use emeralddb_src.Dms.Extend.{Os, Mapped, mapped, map_failed}
use emeralddb_src.Dms.Open.{map_bytes, map_file}

-- The part of the file is mapped where mmap says, or there is an error.
abbrev pub Maps : Os → (ℕ → ℕ) → DmsFile → ℕ → ℕ → Rc × Option (ℕ × Mem) → Type 0
Maps os disk f offset n (rc, none) = is_error rc ≡ true
Maps os disk f offset n (rc, some (a, m)) =
    (rc ≡ ok) × (os.mmap ≡ mapped a) × (m ≡ map_bytes disk offset f.mem a n)

pub map_file-Maps :
    (os : Os) (disk : ℕ → ℕ) (f : DmsFile) (offset n : ℕ)
    → Maps os disk f offset n (map_file os disk f offset n)
unfolding map_file
map_file-Maps os disk f offset n =
    if_cases (Maps os disk f offset n) (is_error os.size_for_map) _ _ (λ e. e)
      λ e.
        if_cases (Maps os disk f offset n) (ltb f.file_size (offset + n)) _ _ (λ e. refl)
          λ e. by_mmap os.mmap refl
  where
    by_mmap :
        (r : Mapped)
        → os.mmap ≡ r
        → Maps os disk f offset n (elim r as (λ _. Rc × Option (ℕ × Mem)) [
          | mapped a ↦ (ok, some (a, map_bytes disk offset f.mem a n))
          | map_failed e ↦ (if e == 12 then oom else if e == 13 then perm else sys, none)
        ])
    by_mmap (mapped a) e = (refl, e, refl)
    by_mmap (map_failed c) e =
        if_cases (λ rc. is_error rc ≡ true) (c == 12) _ _ (λ _. refl)
          λ _. if_cases (λ rc. is_error rc ≡ true) (c == 13) _ _ (λ _. refl) λ _. refl
