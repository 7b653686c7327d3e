-- ===== src/Dms/Open/New.antt =====
-- `initialize` of dms/dms.cpp on a new file.
use emeralddb_src.Base.{
  ℕ, ◌+◌, ◌≡◌, refl, ap, ◌∙◌, sym, subst, ◌⊎◌, inl, inr, Option, none, some, List, [], ◌∷◌, arith,
  ◌==◌, length, if_cases, not, true, false,
}
use emeralddb_src.Core.{Rc, ok, is_error}
use emeralddb_src.Memory.{Mem, load32, store32, copy, load32-store32, load32-store32_ne}
use emeralddb_src.Dms.Layout.{file_header_size}
use emeralddb_src.Dms.File.{DmsFile, num_pages}
use emeralddb_src.Dms.File.Invariant.{IsFile, space_of}
use emeralddb_src.Dms.FreeSpace.Index.{Entries}
use emeralddb_src.Dms.Extend.{Os}
use emeralddb_src.Dms.Extend.Segment.{HeaderApart}
use emeralddb_src.Dms.Extend.Extended.{extend_header-cases}
use emeralddb_src.Dms.Open.Mapping.{Maps, map_file-Maps}
use emeralddb_src.Dms.Open.{
  init_header, use_header, init_new, load_segments, load_body, load_data, Opening, size_loop,
  initialize, new_file,
}

no_pages : (m : Mem) (h : ℕ) → load32 (init_header m h) (h + 4) ≡ 0
unfolding init_header
no_pages m h =
    let named = copy m h (b'D' ∷ b'M' ∷ b'S' ∷ b'H' ∷ 0 ∷ []) in
    load32-store32_ne (store32 (store32 named (h + 4) 0) (h + 8) 0) (h + 12) (h + 4) 0 (omega arith)
    ∙ load32-store32_ne (store32 named (h + 4) 0) (h + 8) (h + 4) 0 (omega arith)
    ∙ load32-store32 named (h + 4) 0 (omega arith)

-- A file without a page, whose mapped header says so.
abbrev IsEmpty : DmsFile → Type 0
IsEmpty f =
    (f.body ≡ [])
    × (f.free_space_map ≡ [])
    × (f.file_size ≡ file_header_size)
    × ((h : ℕ) × (f.header ≡ some h) × (load32 f.mem (h + 4) ≡ 0))

-- What `_initNew` comes to.
abbrev Begins : Rc × DmsFile → Type 0
Begins (rc, g) = (is_error rc ≡ true) ⊎ (rc ≡ ok) × IsEmpty g

module _ (os : Os) (disk : ℕ → ℕ) (m : Mem) where
  abbrev sized : DmsFile
  sized = new_file m file_header_size

  mapped-Begins :
      (r : Rc × Option (ℕ × Mem))
      → Maps os disk sized 0 file_header_size r
      → Begins (elim r.1 as (λ _. Rc × DmsFile) [
        | none ↦ (r.0, sized)
        | some (h, m) ↦ (ok, record sized { mem = init_header m h; header = some h })
      ])
  mapped-Begins (rc, none) e = inl e
  mapped-Begins (rc, some (h, m')) e = inr (refl, (refl, refl, refl, (h, refl, no_pages m' h)))

  use_header-Begins :
      (r : Rc × ℕ)
      → (r ≡ (ok, 65536)) ⊎ (is_error r.0 ≡ true)
      → Begins (use_header os disk (new_file m 0) r)
  unfolding use_header
  use_header-Begins r (inl e) =
      subst (λ r. Begins (use_header os disk (new_file m 0) r)) (sym e)
        (mapped-Begins _ (map_file-Maps os disk sized 0 file_header_size))
  use_header-Begins (rc, size) (inr bad) = rw (bad, use_header) (inl bad)

  init_new-Begins : Begins (init_new os disk (new_file m 0))
  unfolding init_new
  init_new-Begins = use_header-Begins _ (extend_header-cases os.writes 0)

-- What `initialize` comes to on a new file: an error, or a well-formed file without a page, of the header's length.
abbrev pub Initialized : Option (Rc × DmsFile) → Type 0
Initialized none = ⊥
Initialized (some (rc, g)) =
    (is_error rc ≡ true)
    ⊎ (rc ≡ ok) × IsFile g × HeaderApart g × (g.body ≡ []) × (g.file_size ≡ file_header_size)

no_pages-IsFile : (f : DmsFile) → f.body ≡ [] → f.free_space_map ≡ [] → IsFile f
no_pages-IsFile f body map =
    let none_mapped : length f.body ≡ 0 = ap length body in
    record {
      pages = λ p h. absurd (omega (arith, h, none_mapped));
      apart = λ i j a b ne. absurd (omega (arith, a, none_mapped));
      index = record {
        sound = subst (Entries (space_of f.mem f.body) (num_pages f)) (sym map) tt;
        once = λ p h. absurd (omega (arith, h, none_mapped));
        size = ap length map ∙ omega (arith, none_mapped);
      };
    }

load_body_empty :
    (segment_os : ℕ → Os) (disk : ℕ → ℕ) (h : ℕ) (f : DmsFile)
    → load32 f.mem (h + 4) ≡ 0
    → load_body segment_os disk h f ≡ (ok, f)
unfolding load_body load_segments
load_body_empty segment_os disk h f count = rw count refl

load_data_empty :
    (header_os : Os) (segment_os : ℕ → Os) (disk : ℕ → ℕ) (f : DmsFile)
    → IsEmpty f
    → load_data header_os segment_os disk f ≡ (ok, f)
unfolding load_data
load_data_empty header_os segment_os disk f (body, map, size, (h, e, count)) =
    simp (e, load_data) (load_body_empty segment_os disk h f count)

loads_empty :
    (o : Opening) (disk : ℕ → ℕ) (rc : Rc) (rest : List Rc) (f : DmsFile)
    → IsEmpty f
    → Initialized (size_loop o disk (rc ∷ rest) f)
unfolding size_loop
loads_empty o disk rc rest f empty =
    let written : (f.file_size == 0) ≡ false = ground (arith, empty.2) in
    if_cases Initialized (is_error rc) _ _ (λ e. inl e)
      λ e.
        if_cases Initialized (f.file_size == 0) _ _ (λ z. absurd cc)
          λ z.
            subst (λ r. Initialized (some r))
              (sym (load_data_empty o.header_os o.segment_os disk f empty))
              (inr (
                refl,
                no_pages-IsFile f (empty.0) (empty.1),
                λ i h. absurd (omega (arith, h, ap length (empty.0))),
                empty.0,
                empty.2,
              ))

-- initialize of a file of length 0, where getSize answers twice at least, returns, with an error or
-- with EDB_OK and a well-formed file without a page, of the length of the header.
pub initialize-Initialized :
    (o : Opening) (disk : ℕ → ℕ) (first second : Rc) (rest : List Rc) (m : Mem)
    → Initialized (initialize o disk (first ∷ second ∷ rest) (new_file m 0))
unfolding initialize size_loop
initialize-Initialized o disk first second rest m =
    if_cases Initialized (not o.name_copied) _ _ (λ e. inl refl)
      λ e.
        if_cases Initialized (is_error o.opened) _ _ (λ d. inl d)
          λ d.
            if_cases Initialized (is_error first) _ _ (λ b. inl b)
              λ b.
                if_cases Initialized (is_error (init_new o.init_os disk (new_file m 0)).0) _ _
                  (λ c. inl c)
                  λ c. elim (init_new-Begins o.init_os disk m) [
                    | inl bad ↦ absurd cc
                    | inr (begun, empty) ↦ loads_empty o disk second rest _ empty
                  ]
