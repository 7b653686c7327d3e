-- ===== src/Dms/Extend/Fresh.antt =====
-- The pages that `_extendSegment` of dms/dms.cpp makes.
use emeralddb_src.Base.{
  ℕ, zero, suc, ◌+◌, ◌-◌, ◌*◌, ◌≤◌, ◌<◌, ◌≡◌, refl, ap, ◌∙◌, ◌⊎◌, inl, true, [], ◌∷◌, arith,
}
use emeralddb_src.Memory.{
  Mem, Agree, store32, copy, copy_frame, copy-Holds, store32_frame, load32-store32,
  load32-store32_ne,
}
use emeralddb_src.Dms.Layout.{
  page_size, page_header_size, num_slots, slot_offset, free_space, free_offset, has_eye_catcher,
}
use emeralddb_src.Dms.Extend.{init_page, init_pages}
use emeralddb_src.Dms.Page.Invariant.{IsPage}
use emeralddb_src.Dms.File.Invariant.{IsPage-Agree, word_agree}

-- A page without a record, with all of its space free.
abbrev pub IsFresh : Mem → ℕ → Type 0
IsFresh m page = IsPage m page × (free_space m page ≡ 4194276)

pub IsFresh-Agree :
    (m m' : Mem) (page : ℕ) → Agree m m' page (page + page_size) → IsFresh m page → IsFresh m' page
IsFresh-Agree m m' page same (valid, free) =
    (IsPage-Agree m m' page same valid, word_agree m m' page same 20 (omega arith) ∙ free)

module _ (m : Mem) (page : ℕ) where
  abbrev name_page : Mem
  name_page = copy m page (b'P' ∷ b'A' ∷ b'G' ∷ b'H' ∷ [])

  abbrev size_page : Mem
  size_page = store32 (store32 name_page (page + 4) page_size) (page + 8) 0

  abbrev slots_page : Mem
  slots_page = store32 (store32 size_page (page + 12) 0) (page + 16) page_header_size

  abbrev spaces_page : Mem
  spaces_page = store32 slots_page (page + 20) (page_size - page_header_size)

  pub init_page_frame : (x : ℕ) → (x < page) ⊎ (page + 28 ≤ x) → init_page m page x ≡ m x
  unfolding init_page
  init_page_frame x h =
      store32_frame spaces_page (page + 24) page_size x (omega arith)
      ∙ store32_frame slots_page (page + 20) 4194276 x (omega arith)
      ∙ store32_frame (store32 size_page (page + 12) 0) (page + 16) 28 x (omega arith)
      ∙ store32_frame size_page (page + 12) 0 x (omega arith)
      ∙ store32_frame (store32 name_page (page + 4) page_size) (page + 8) 0 x (omega arith)
      ∙ store32_frame name_page (page + 4) page_size x (omega arith)
      ∙ copy_frame m page _ x (omega arith)

  init_page_name : (i : ℕ) → i < 4 → init_page m page (page + i) ≡ name_page (page + i)
  unfolding init_page
  init_page_name i h =
      store32_frame spaces_page (page + 24) page_size (page + i) (omega arith)
      ∙ store32_frame slots_page (page + 20) 4194276 (page + i) (omega arith)
      ∙ store32_frame (store32 size_page (page + 12) 0) (page + 16) 28 (page + i) (omega arith)
      ∙ store32_frame size_page (page + 12) 0 (page + i) (omega arith)
      ∙ store32_frame (store32 name_page (page + 4) page_size) (page + 8) 0 (page + i) (omega arith)
      ∙ store32_frame name_page (page + 4) page_size (page + i) (omega arith)

  init_page_words :
      (num_slots (init_page m page) page ≡ 0)
      × (slot_offset (init_page m page) page ≡ 28)
      × (free_space (init_page m page) page ≡ 4194276)
      × (free_offset (init_page m page) page ≡ 4194304)
  unfolding init_page
  init_page_words = (
    load32-store32_ne spaces_page (page + 24) (page + 12) page_size (omega arith)
        ∙ load32-store32_ne slots_page (page + 20) (page + 12) 4194276 (omega arith)
        ∙ load32-store32_ne (store32 size_page (page + 12) 0) (page + 16) (page + 12) 28
            (omega arith)
        ∙ load32-store32 size_page (page + 12) 0 (omega arith),
    load32-store32_ne spaces_page (page + 24) (page + 16) page_size (omega arith)
        ∙ load32-store32_ne slots_page (page + 20) (page + 16) 4194276 (omega arith)
        ∙ load32-store32 (store32 size_page (page + 12) 0) (page + 16) 28 (omega arith),
    load32-store32_ne spaces_page (page + 24) (page + 20) page_size (omega arith)
        ∙ load32-store32 slots_page (page + 20) 4194276 (omega arith),
    load32-store32 spaces_page (page + 24) page_size (omega arith),
  )

  init_page_eye : has_eye_catcher (init_page m page) page ≡ true
  init_page_eye =
      let named : (i : ℕ) → i < 4 → init_page m page (page + i) ≡ _ =
        λ i h. init_page_name i h ∙ copy-Holds m page (b'P' ∷ b'A' ∷ b'G' ∷ b'H' ∷ []) i h in
      let e : page ≡ page + 0 = omega arith in
      let first : init_page m page page ≡ 80 = ap (init_page m page) e ∙ named 0 (omega arith) in
      rw (first, named 1 (omega arith), named 2 (omega arith), named 3 (omega arith)) refl

  pub init_page-IsFresh : IsFresh (init_page m page) page
  init_page-IsFresh =
      let w = init_page_words in
      (
        record {
          eye_catcher = init_page_eye;
          slots_end = omega (arith, w);
          room = omega (arith, w);
          stacked = rw w.0 w.3;
          space = rw w.0 (omega (arith, w));
        },
        w.2,
      )

pub init_pages_frame :
    (m : Mem) (start left x : ℕ)
    → (x < start) ⊎ (start + left * page_size ≤ x)
    → init_pages m start left x ≡ m x
unfolding init_pages
init_pages_frame m start zero x h = refl
init_pages_frame m start (suc left) x h =
    init_pages_frame (init_page m start) (start + page_size) left x (omega arith)
    ∙ init_page_frame m start x (omega arith)

-- The pages that the loop goes through are fresh.
pub init_pages-IsFresh :
    (m : Mem) (start left i : ℕ)
    → i < left
    → IsFresh (init_pages m start left) (start + page_size * i)
unfolding init_pages
init_pages-IsFresh m start zero i h = absurd (omega arith)
init_pages-IsFresh m start (suc left) zero h =
    let e : start + page_size * 0 ≡ start = omega arith in
    rw e (
      IsFresh-Agree (init_page m start) _ start
        (λ x a b.
          init_pages_frame (init_page m start) (start + page_size) left x (inl (omega arith)))
        (init_page-IsFresh m start))
init_pages-IsFresh m start (suc left) (suc i) h =
    let e : start + page_size * suc i ≡ start + page_size + page_size * i = omega arith in
    rw e (init_pages-IsFresh (init_page m start) (start + page_size) left i (omega arith))
