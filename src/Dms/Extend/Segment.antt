-- ===== src/Dms/Extend/Segment.antt =====
-- `_extendSegment` of dms/dms.cpp on a well-formed file.
use emeralddb_src.Base.{
  ℕ, ◌+◌, ◌-◌, ◌*◌, ◌/◌, ◌%◌, ◌≤◌, ◌<◌, ◌≡◌, refl, ap, subst, ◌∙◌, sym, ◌⊎◌, inl, inr, [], ◌∷◌,
  ◌++◌, List, arith, length, length-append, get_or, get_or-append, get_or-append_past, some,
  Option-cases,
}
use emeralddb_src.Memory.{Mem, Agree, store32_frame}
use emeralddb_src.Dms.Layout.{page_size, segment_size, free_space, num_slots}
use emeralddb_src.Dms.FreeSpace.Index.{IsIndex}
use emeralddb_src.Dms.Extend.{map_zeros, init_pages, add_pages, add_segment}
use emeralddb_src.Dms.Extend.Index.{add_pages-IsIndex}
use emeralddb_src.Dms.Extend.Fresh.{IsFresh, IsFresh-Agree, init_pages_frame, init_pages-IsFresh}
use emeralddb_src.Dms.Page.Invariant.{IsPage, Stored}
use emeralddb_src.Dms.File.{DmsFile, num_pages}
use emeralddb_src.Dms.File.Invariant.{
  IsFile, AreApart, page_address, space_of, IsPage-Agree, Stored-page, word_agree,
}
use emeralddb_src.Dms.File.Added.{Keeps}

-- The file header, if it is mapped, does not overlap with a segment at `a`.
abbrev pub ClearOfHeader : DmsFile → ℕ → Type 0
ClearOfHeader f a = (h : ℕ) → f.header ≡ some h → (h + 16 ≤ a) ⊎ (a + segment_size ≤ h)

-- Nor with a mapped one.
abbrev pub HeaderApart : DmsFile → Type 0
HeaderApart f = (i : ℕ) → i < length f.body → ClearOfHeader f (get_or f.body i 0)

-- A segment at `a` overlaps with nothing that is mapped.
abbrev pub IsUnused : DmsFile → ℕ → Type 0
IsUnused f a =
    ClearOfHeader f a
    × ((i : ℕ)
        → i < length f.body
        → (get_or f.body i 0 + segment_size ≤ a) ⊎ (a + segment_size ≤ get_or f.body i 0))

-- map_zeros writes in the segment only.
map_zeros_frame : (m : Mem) (a n x : ℕ) → (x < a) ⊎ (a + n ≤ x) → map_zeros m a n x ≡ m x
unfolding map_zeros
map_zeros_frame m a n x h = ground arith

module _ (f : DmsFile) (a : ℕ) (clear : ClearOfHeader f a) where
  abbrev pub extended : DmsFile
  extended = add_segment f a (map_zeros f.mem a segment_size)

  abbrev fresh : Mem
  fresh = init_pages (map_zeros f.mem a segment_size) a 32

  -- The memory outside of the header's count is that of the fresh pages.
  extended_mem :
      (x : ℕ) → ((h : ℕ) → f.header ≡ some h → (x < h) ⊎ (h + 16 ≤ x)) → extended.mem x ≡ fresh x
  unfolding add_segment
  extended_mem x out = elim (Option-cases f.header) [
    | inl n ↦ rw (n, add_segment) refl
    | inr (h, e) ↦ rw (e, add_segment) (store32_frame fresh (h + 4) _ x (omega (arith, out h e)))
  ]

  extended_old :
      (x : ℕ)
      → (x < a) ⊎ (a + segment_size ≤ x)
      → ((h : ℕ) → f.header ≡ some h → (x < h) ⊎ (h + 16 ≤ x))
      → extended.mem x ≡ f.mem x
  extended_old x away out =
      extended_mem x out
      ∙ init_pages_frame (map_zeros f.mem a segment_size) a 32 x (omega arith)
      ∙ map_zeros_frame f.mem a segment_size x away

below_or_at : (i n : ℕ) → i < n + 1 → (i < n) ⊎ (i ≡ n)
below_or_at i n h = omega arith

module _ (body : List ℕ) (a : ℕ) where
  at_end : get_or (body ++ a ∷ []) (length body) 0 ≡ a
  at_end =
      let e : length body ≡ length body + 0 = omega arith in
      ap (λ i. get_or (body ++ a ∷ []) i 0) e ∙ get_or-append_past body (a ∷ []) 0 0

  address_old :
      (p : ℕ) → p < length body * 32 → page_address (body ++ a ∷ []) p ≡ page_address body p
  address_old p h =
      ap (λ b. b + page_size * (p % 32)) (get_or-append body (a ∷ []) (p / 32) 0 (omega arith))

  address_new :
      (p : ℕ)
      → length body * 32 ≤ p
      → p < length body * 32 + 32
      → page_address (body ++ a ∷ []) p ≡ a + page_size * (p - length body * 32)
  address_new p h k =
      let e : p / 32 ≡ length body = omega arith in
      let d : p % 32 ≡ p - length body * 32 = omega arith in
      ap (λ i. get_or (body ++ a ∷ []) i 0 + page_size * (p % 32)) e
      ∙ ap (λ b. b + page_size * (p % 32)) at_end
      ∙ ap (λ i. a + page_size * i) d

  apart_new :
      AreApart body
      → ((i : ℕ)
          → i < length body
          → (get_or body i 0 + segment_size ≤ a) ⊎ (a + segment_size ≤ get_or body i 0))
      → AreApart (body ++ a ∷ [])
  apart_new apart unused i j hi hj ne =
      elim (below_or_at i (length body) (omega (arith, length-append body (a ∷ [])))) [
        | inl p ↦
            rw (get_or-append body (a ∷ []) i 0 p)
              elim (below_or_at j (length body) (omega (arith, length-append body (a ∷ [])))) [
                | inl q ↦ rw (get_or-append body (a ∷ []) j 0 q) (apart i j p q ne)
                | inr q ↦ rw (q, at_end) (unused i p)
              ]
        | inr p ↦ elim (below_or_at j (length body) (omega (arith, length-append body (a ∷ [])))) [
          | inl q ↦ rw (p, at_end, get_or-append body (a ∷ []) j 0 q) (omega (arith, unused j q))
          | inr q ↦ absurd (ne (p ∙ sym q))
        ]
      ]

-- A file that has got the segment at `a`, whose pages are fresh.
module _ (f : DmsFile) (valid : IsFile f) (a : ℕ) (m' : Mem)
    (same : (p : ℕ)
      → p < num_pages f
      → Agree f.mem m' (page_address f.body p) (page_address f.body p + page_size))
    (new : (i : ℕ) → i < 32 → IsFresh m' (a + page_size * i)) where
  abbrev with_segment : DmsFile
  with_segment = record f {
    mem = m';
    body = f.body ++ a ∷ [];
    free_space_map = add_pages f.free_space_map (length f.free_space_map) 32;
  }

  count_pages : num_pages with_segment ≡ num_pages f + 32
  count_pages = omega (arith, length-append f.body (a ∷ []))

  old_or_new :
      (p : ℕ)
      → p < num_pages with_segment
      → (p < num_pages f) ⊎ (num_pages f ≤ p) × (p < num_pages f + 32)
  old_or_new p h = omega (arith, count_pages)

  new_page :
      (p : ℕ)
      → num_pages f ≤ p
      → p < num_pages f + 32
      → IsFresh m' (page_address (f.body ++ a ∷ []) p)
  new_page p l h =
      subst (IsFresh m') (sym (address_new f.body a p l h)) (new (p - num_pages f) (omega arith))

  with_segment-IsFile :
      ((i : ℕ)
        → i < length f.body
        → (get_or f.body i 0 + segment_size ≤ a) ⊎ (a + segment_size ≤ get_or f.body i 0))
      → IsFile with_segment
  with_segment-IsFile unused = record {
    pages = λ p h. elim (old_or_new p h) [
      | inl old ↦
          subst (IsPage m') (sym (address_old f.body a p old))
            (IsPage-Agree f.mem m' (page_address f.body p) (same p old) (valid.pages p old))
      | inr (l, u) ↦ (new_page p l u).0
    ];
    apart = apart_new f.body a valid.apart unused;
    index =
        subst (λ n. IsIndex (space_of m' (f.body ++ a ∷ [])) n with_segment.free_space_map)
          (sym count_pages)
          (add_pages-IsIndex (space_of f.mem f.body) (space_of m' (f.body ++ a ∷ []))
            f.free_space_map (num_pages f) 32 valid.index
            (λ q h.
              ap (free_space m') (address_old f.body a q h)
              ∙ word_agree f.mem m' (page_address f.body q) (same q h) 20 (omega arith))
            (λ q l u. (new_page q l u).1));
  }

  with_segment-Keeps : Keeps f with_segment
  with_segment-Keeps rid bytes s =
      let at = address_old f.body a rid.page_id s.page_bound in
      let (slot, kept) =
        Stored-page f.mem m' (page_address f.body rid.page_id) (same rid.page_id s.page_bound)
          (valid.pages rid.page_id s.page_bound) rid.slot_id bytes s.slot_bound s.stored in
      record {
        page_bound = omega (arith, s.page_bound, count_pages);
        slot_bound = subst (λ b. rid.slot_id < num_slots m' b) (sym at) slot;
        stored = subst (λ b. Stored m' b rid.slot_id bytes) (sym at) kept;
      }

module _ (f : DmsFile) (valid : IsFile f) (header : HeaderApart f) (a : ℕ)
    (unused : IsUnused f a) where
  abbrev next : DmsFile
  next = extended f a (unused.0)

  page_same :
      (p : ℕ)
      → p < num_pages f
      → Agree f.mem next.mem (page_address f.body p) (page_address f.body p + page_size)
  page_same p h x lo hi =
      let i = p / 32 in
      let place = unused.1 i (omega arith) in
      extended_old f a (unused.0) x (omega (arith, place))
        λ top e. omega (arith, header i (omega arith) top e)

  page-IsFresh : (i : ℕ) → i < 32 → IsFresh next.mem (a + page_size * i)
  page-IsFresh i h =
      IsFresh-Agree (fresh f a (unused.0)) next.mem (a + page_size * i)
        (λ x lo hi. extended_mem f a (unused.0) x λ top e. omega (arith, unused.0 top e))
        (init_pages-IsFresh (map_zeros f.mem a segment_size) a 32 i h)

  -- The file with one segment more is well-formed, and stores all it stored.
  pub next-IsFile : IsFile next
  unfolding add_segment
  next-IsFile = with_segment-IsFile f valid a next.mem page_same page-IsFresh (unused.1)

  pub next-Keeps : Keeps f next
  unfolding add_segment
  next-Keeps = with_segment-Keeps f valid a next.mem page_same page-IsFresh

  pub next-HeaderApart : HeaderApart next
  unfolding add_segment
  next-HeaderApart i h top e =
      elim (below_or_at i (length f.body) (omega (arith, h, length-append f.body (a ∷ [])))) [
        | inl p ↦ rw (get_or-append f.body (a ∷ []) i 0 p) (header i p top e)
        | inr p ↦ rw (p, at_end f.body a) (unused.0 top e)
      ]

  -- The new pages are those of the last segment, and have all of their space free.
  pub next_fresh :
      (p : ℕ)
      → num_pages f ≤ p
      → p < num_pages f + 32
      → (p < num_pages next) × (space_of next.mem next.body p ≡ 4194276)
  unfolding add_segment
  next_fresh p l h = (
    omega (arith, length-append f.body (a ∷ [])),
    (new_page f valid a next.mem page_same page-IsFresh p l h).1,
  )

  pub next_shape : (next.body ≡ f.body ++ a ∷ []) × (next.file_size ≡ f.file_size)
  unfolding add_segment
  next_shape = (refl, refl)
