-- ===== src/Dms/File/Change.antt =====
-- An operation of dms/dms.cpp that changes one page and enters its new free space, on the file.
use emeralddb_src.Base.{
  ℕ, ◌+◌, ◌≤◌, ◌<◌, ◌≡◌, ap, sym, ◌∙◌, ◌≢◌, ◌⊎◌, inl, inr, List, arith, ◌==◌, Bool-cases,
}
use emeralddb_src.Memory.{Mem, Agree}
use emeralddb_src.Dms.Layout.{RecordId, page_size}
use emeralddb_src.Dms.FreeSpace.{FreeSpaceMap, insert, erase}
use emeralddb_src.Dms.FreeSpace.Index.{update-IsIndex, IsIndex-same}
use emeralddb_src.Dms.File.{DmsFile, num_pages}
use emeralddb_src.Dms.File.Invariant.{
  IsFile, StoredAt, page_address, space_of, pages_apart, IsPage-Agree, Stored-page, word_agree,
}
use emeralddb_src.Dms.Page.Invariant.{IsPage}

module _ (f : DmsFile) (valid : IsFile f) (m' : Mem) (p : ℕ) (bound : p < num_pages f)
    (outside : (x : ℕ)
      → (x < page_address f.body p) ⊎ (page_address f.body p + page_size ≤ x)
      → m' x ≡ f.mem x) where
  other_page :
      (q : ℕ)
      → q < num_pages f
      → q ≢ p
      → Agree f.mem m' (page_address f.body q) (page_address f.body q + page_size)
  other_page q h ne x a b =
      outside x (omega (arith, pages_apart f.body valid.apart p q bound h (λ e. ne (sym e))))

  -- The other pages hold what they held.
  pub change-StoredAt :
      (map' : FreeSpaceMap) (rid : RecordId) (bytes : List ℕ)
      → rid.page_id ≢ p
      → StoredAt f rid bytes
      → StoredAt (record f { mem = m'; free_space_map = map' }) rid bytes
  change-StoredAt map' rid bytes ne s =
      let t =
        Stored-page f.mem m' (page_address f.body rid.page_id)
          (other_page rid.page_id s.page_bound ne) (valid.pages rid.page_id s.page_bound)
          rid.slot_id bytes s.slot_bound s.stored in
      record { page_bound = s.page_bound; slot_bound = t.0; stored = t.1 }

  module _ (page : IsPage m' (page_address f.body p)) where
    change_pages : (q : ℕ) → q < num_pages f → IsPage m' (page_address f.body q)
    change_pages q h = elim (Bool-cases (q == p)) [
      | inl same ↦
          let e : page_address f.body q ≡ page_address f.body p =
            ap (page_address f.body) (ground arith) in
          rw e page
      | inr other ↦
          IsPage-Agree f.mem m' (page_address f.body q) (other_page q h (ground arith))
            (valid.pages q h)
    ]

    space_change :
        (q : ℕ) → q < num_pages f → q ≢ p → space_of m' f.body q ≡ space_of f.mem f.body q
    space_change q h ne =
        word_agree f.mem m' (page_address f.body q) (other_page q h ne) 20 (omega arith)

    pub change-IsFile : IsFile (record f {
      mem = m';
      free_space_map =
          insert (space_of m' f.body p) p (erase (space_of f.mem f.body p) p f.free_space_map);
    })
    change-IsFile = record {
      pages = change_pages;
      apart = valid.apart;
      index =
          update-IsIndex (space_of f.mem f.body) (space_of m' f.body) (num_pages f) p
            f.free_space_map bound space_change valid.index;
    }

    -- The free-space map stays as it is when the page's free space does.
    pub keep-IsFile :
        space_of m' f.body p ≡ space_of f.mem f.body p → IsFile (record f { mem = m' })
    keep-IsFile e = record {
      pages = change_pages;
      apart = valid.apart;
      index =
          IsIndex-same (space_of f.mem f.body) (space_of m' f.body) (num_pages f) f.free_space_map
            (λ q h. elim (Bool-cases (q == p)) [
              | inl same ↦
                  let eq : q ≡ p = ground arith in
                  ap (space_of m' f.body) eq ∙ e ∙ ap (space_of f.mem f.body) (sym eq)
              | inr other ↦ space_change q h (ground arith)
            ])
            valid.index;
    }
