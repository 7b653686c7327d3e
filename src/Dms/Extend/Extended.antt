-- ===== src/Dms/Extend/Extended.antt =====
-- The ends of `_extendSegment` of dms/dms.cpp.
use emeralddb_src.Base.{
  ℕ, zero, suc, ◌+◌, ◌*◌, ◌≤◌, ◌<◌, ◌≡◌, refl, ap, subst, ◌∙◌, sym, ◌⊎◌, inl, inr, true, [], ◌∷◌,
  ◌++◌, arith, Option, none, some, ltb, ◌==◌, if_cases, if◌then◌else◌,
}
use emeralddb_src.Core.{Rc, ok, oom, perm, sys, is_error}
use emeralddb_src.Memory.{Mem}
use emeralddb_src.Dms.Layout.{segment_size, extend_size}
use emeralddb_src.Dms.Extend.{
  Os, Mapped, mapped, map_failed, Written, whole, failed, map_zeros, write_blocks, extend_file,
  map_segment, add_segment, use_extension, extend_segment,
}
use emeralddb_src.Dms.Extend.Segment.{
  HeaderApart, IsUnused, next-IsFile, next-Keeps, next-HeaderApart, next_fresh, next_shape,
}
use emeralddb_src.Dms.File.{DmsFile, num_pages}
use emeralddb_src.Dms.File.Invariant.{IsFile, space_of}
use emeralddb_src.Dms.File.Added.{Keeps}

-- A file and what it stores do not depend on the length of the file on disk.
resized-IsFile : (f : DmsFile) (size : ℕ) → IsFile f → IsFile (record f { file_size = size })
resized-IsFile f size valid = record {
  pages = valid.pages;
  apart = valid.apart;
  index = valid.index;
}

resized-Keeps : (f : DmsFile) (size : ℕ) → Keeps f (record f { file_size = size })
resized-Keeps f size rid bytes s = record {
  page_bound = s.page_bound;
  slot_bound = s.slot_bound;
  stored = s.stored;
}

-- What an extension comes to: the file is well-formed and stores all it stored. With EDB_OK it has one segment more,
-- where mmap has mapped it, whose pages are empty; with an error it has the segments it had.
abbrev pub Extended : Os → DmsFile → Rc × DmsFile → Type 0
Extended os f (rc, g) =
    IsFile g
    × Keeps f g
    × HeaderApart g
    × ((rc ≡ ok)
          × ((a : ℕ) × (os.mmap ≡ mapped a) × (g.body ≡ f.body ++ a ∷ []))
          × (g.file_size ≡ f.file_size + segment_size)
          × ((p : ℕ)
              → num_pages f ≤ p
              → p < num_pages f + 32
              → (p < num_pages g) × (space_of g.mem g.body p ≡ 4194276))
        ⊎ (is_error rc ≡ true) × (g.body ≡ f.body))

-- The blocks are all written, or there is an error.
write_blocks-cases :
    (writes : ℕ → Written) (i left size : ℕ)
    → (write_blocks writes i left size ≡ (ok, size + left * extend_size))
      ⊎ (is_error (write_blocks writes i left size).0 ≡ true)
unfolding write_blocks
write_blocks-cases writes i zero size = inl (ap (λ s. (ok, s)) (omega arith))
write_blocks-cases writes i (suc left) size = elim (Written-cases (writes i)) [
  | inl w ↦
      let e : size + extend_size + left * extend_size ≡ size + suc left * extend_size =
        omega arith in
      rw (w, write_blocks)
        elim (write_blocks-cases writes (i + 1) left (size + extend_size)) [
          | inl done ↦ inl (done ∙ ap (λ s. (ok, s)) e)
          | inr bad ↦ inr bad
        ]
  | inr (e, (n, w)) ↦ rw (w, write_blocks) (inr refl)
]
  where
    Written-cases : (w : Written) → (w ≡ whole) ⊎ ((e : ℕ) × ((n : ℕ) × (w ≡ failed e n)))
    Written-cases whole = inl refl
    Written-cases (failed e n) = inr (e, (n, refl))

-- A segment is mapped where mmap says, and is read as zeros, or there is an error.
abbrev Maps : Os → DmsFile → ℕ → Rc × Option (ℕ × Mem) → Type 0
Maps os f n (rc, none) = is_error rc ≡ true
Maps os f n (rc, some (a, m)) = (os.mmap ≡ mapped a) × (m ≡ map_zeros f.mem a n)

map_segment-Maps : (os : Os) (f : DmsFile) (offset n : ℕ) → Maps os f n (map_segment os f offset n)
unfolding map_segment
map_segment-Maps os f offset n =
    if_cases (Maps os f n) (is_error os.size_for_map) _ _ (λ e. e)
      λ e.
        if_cases (Maps os f n) (ltb f.file_size (offset + n)) _ _ (λ e. refl)
          λ e. by_mmap os.mmap refl
  where
    by_mmap :
        (r : Mapped)
        → os.mmap ≡ r
        → Maps os f n (elim r as (λ _. Rc × Option (ℕ × Mem)) [
          | mapped a ↦ (ok, some (a, map_zeros f.mem a n))
          | map_failed e ↦ (if e == 12 then oom else if e == 13 then perm else sys, none)
        ])
    by_mmap (mapped a) e = (e, refl)
    by_mmap (map_failed c) e =
        if_cases (λ rc. is_error rc ≡ true) (c == 12) _ _ (λ _. refl)
          λ _. if_cases (λ rc. is_error rc ≡ true) (c == 13) _ _ (λ _. refl) λ _. refl

extend_file-cases :
    (writes : ℕ → Written) (size : ℕ)
    → (extend_file writes segment_size size ≡ (ok, size + segment_size))
      ⊎ (is_error (extend_file writes segment_size size).0 ≡ true)
unfolding extend_file
extend_file-cases writes size = write_blocks-cases writes 0 2048 size

pub extend_header-cases :
    (writes : ℕ → Written) (size : ℕ)
    → (extend_file writes 65536 size ≡ (ok, size + 65536))
      ⊎ (is_error (extend_file writes 65536 size).0 ≡ true)
unfolding extend_file
extend_header-cases writes size = write_blocks-cases writes 0 1 size

module _ (os : Os) (f : DmsFile) (valid : IsFile f) (apart : HeaderApart f)
    (unused : (a : ℕ) → os.mmap ≡ mapped a → IsUnused f a) where
  unextended :
      (size : ℕ) (rc : Rc) → is_error rc ≡ true → Extended os f (rc, record f { file_size = size })
  unextended size rc e = (resized-IsFile f size valid, resized-Keeps f size, apart, inr (e, refl))

  abbrev longer : DmsFile
  longer = record f { file_size = f.file_size + segment_size }

  mapped-Extended :
      (r : Rc × Option (ℕ × Mem))
      → Maps os longer segment_size r
      → Extended os f (elim r.1 as (λ _. Rc × DmsFile) [
        | none ↦ (r.0, longer)
        | some (a, m) ↦ (ok, add_segment longer a m)
      ])
  mapped-Extended (rc, none) e = unextended (f.file_size + segment_size) rc e
  mapped-Extended (rc, some (a, m)) (e, zeros) = rw zeros (
    next-IsFile longer valid1 apart a free,
    λ rid bytes s. next-Keeps longer valid1 apart a free rid bytes (resized-Keeps f _ rid bytes s),
    next-HeaderApart longer valid1 apart a free,
    inl (
      refl,
      (a, e, (next_shape longer valid1 apart a free).0),
      (next_shape longer valid1 apart a free).1,
      next_fresh longer valid1 apart a free,
    ),
  )
    where
      valid1 : IsFile longer
      valid1 = resized-IsFile f (f.file_size + segment_size) valid

      free : IsUnused longer a
      free = unused a e

  use_extension-Extended :
      (r : Rc × ℕ)
      → (r ≡ (ok, f.file_size + segment_size)) ⊎ (is_error r.0 ≡ true)
      → Extended os f (use_extension os f r)
  unfolding use_extension
  use_extension-Extended r (inl e) =
      subst (λ r. Extended os f (use_extension os f r)) (sym e)
        (mapped-Extended _ (map_segment-Maps os longer f.file_size segment_size))
  use_extension-Extended (rc, size) (inr bad) = rw (bad, use_extension) (unextended size rc bad)

-- On a well-formed file whose header lies outside of its segments, and where mmap answers only with
-- a place that is not in use, _extendSegment leaves a well-formed file that stores all it stored:
-- with EDB_OK the file has one segment more, where mmap has mapped it, whose pages are empty; with
-- an error it has the segments it had.
pub extend_segment-Extended :
    (os : Os) (f : DmsFile)
    → IsFile f
    → HeaderApart f
    → ((a : ℕ) → os.mmap ≡ mapped a → IsUnused f a)
    → Extended os f (extend_segment os f)
unfolding extend_segment
extend_segment-Extended os f valid apart unused =
    if_cases (Extended os f) (is_error os.size_before) _ _
      (λ e. (valid, (λ rid bytes s. s), apart, inr (e, refl)))
      λ e.
        use_extension-Extended os f valid apart unused _ (extend_file-cases os.writes f.file_size)
