-- ===== src/Dms/File/Added.antt =====
-- `insert` of dms/dms.cpp, once it has chosen a page: the ends that it comes to.
use emeralddb_src.Base.{
  ℕ, ◌+◌, ◌-◌, ◌≤◌, ◌<◌, ◌≡◌, refl, ap, subst, sym, ◌⊎◌, inl, inr, true, false, List, arith, ◌==◌,
  none, some, Bool-cases,
}
use emeralddb_src.Core.{ok, sys}
use emeralddb_src.Bson.{Bson}
use emeralddb_src.Memory.{Mem, Holds, store32, add32, sub32}
use emeralddb_src.Dms.Layout.{
  RecordId, page_size, num_slots, slot_at, free_space, free_offset, slot_offset, max_record,
}
use emeralddb_src.Dms.Page.{
  needs_recovery, lacks_space, recover_space, place, record_offset, full_size,
}
use emeralddb_src.Dms.Page.Invariant.{IsPage, Stored}
use emeralddb_src.Dms.Page.Stack.{Stacked-le}
use emeralddb_src.Dms.Page.Insert.{
  Inserted, insert-Inserted, Inserted-IsPage, Inserted-Stored, placed_words,
}
use emeralddb_src.Dms.Page.Recover.{
  recover_space_in_vain, recover_space-IsPage, recover_space_frame, recover_space_header,
}
use emeralddb_src.Dms.FreeSpace.{insert, erase}
use emeralddb_src.Dms.File.{
  DmsFile, Attempt, no_page, returns, num_pages, find, insert_into, update_free_space,
}
use emeralddb_src.Dms.File.Invariant.{IsFile, StoredAt, page_address, space_of}
use emeralddb_src.Dms.File.Change.{change-IsFile, change-StoredAt, keep-IsFile}
use emeralddb_src.Dms.File.Find.{find-StoredAt}

-- Everything that is stored in `f` is stored in `g`.
abbrev pub Keeps : DmsFile → DmsFile → Type 0
Keeps f g = (rid : RecordId) (bytes : List ℕ) → StoredAt f rid bytes → StoredAt g rid bytes

-- A page of `f` changed so that what its slots hold is kept.
module _ (f : DmsFile) (valid : IsFile f) (m' : Mem) (p : ℕ) (bound : p < num_pages f)
    (outside : (x : ℕ)
      → (x < page_address f.body p) ⊎ (page_address f.body p + page_size ≤ x)
      → m' x ≡ f.mem x)
    (slots : num_slots f.mem (page_address f.body p) ≤ num_slots m' (page_address f.body p))
    (kept : (i : ℕ) (bytes : List ℕ)
      → i < num_slots f.mem (page_address f.body p)
      → Stored f.mem (page_address f.body p) i bytes
      → Stored m' (page_address f.body p) i bytes) where
  keep : (map' : _) → Keeps f (record f { mem = m'; free_space_map = map' })
  keep map' rid bytes t = elim (Bool-cases (rid.page_id == p)) [
    | inl same ↦
        let e : page_address f.body rid.page_id ≡ page_address f.body p =
          ap (page_address f.body) (ground arith) in
        let h = subst (λ a. rid.slot_id < num_slots f.mem a) e t.slot_bound in
        let s =
          kept rid.slot_id bytes h (subst (λ a. Stored f.mem a rid.slot_id bytes) e t.stored) in
        let b : rid.slot_id < num_slots m' (page_address f.body p) = omega (arith, slots, h) in
        record {
          page_bound = t.page_bound;
          slot_bound = subst (λ a. rid.slot_id < num_slots m' a) (sym e) b;
          stored = subst (λ a. Stored m' a rid.slot_id bytes) (sym e) s;
        }
    | inr other ↦ change-StoredAt f valid m' p bound outside map' rid bytes (ground arith) t
  ]

-- What a pass of `insert` promises in each of its three ends. It finds no page only if no page has
-- more than the record and its header free. It reports an error with the file and all that it stores
-- kept. Or it returns EDB_OK with a new record id under which the object is stored and found.
abbrev pub Outcome : (bson : Bson) → DmsFile → bson.Obj → Attempt bson.Obj → Type 0
Outcome bson f o no_page = (p : ℕ) → p < num_pages f → space_of f.mem f.body p ≤ bson.objsize o + 8
Outcome bson f o (returns rc g none) =
    (rc ≡ sys) × IsFile g × Keeps f g × (g.file_size ≡ f.file_size) × (g.body ≡ f.body)
Outcome bson f o (returns rc g (some (rid, out))) =
    (rc ≡ ok)
    × IsFile g
    × Keeps f g
    × (g.file_size ≡ f.file_size)
    × (g.body ≡ f.body)
    × StoredAt g rid (bson.objdata o)
    × (find bson g rid ≡ (ok, some o))
    × (out ≡ o)
    × ((bytes : List ℕ) → StoredAt f rid bytes → ⊥)

lacks_space_not :
    (m : Mem) (page size : ℕ)
    → lacks_space m page size ≡ false
    → slot_offset m page ≤ free_offset m page
    → free_offset m page ≤ page_size
    → size ≤ max_record
    → (slot_offset m page + (size + 12) ≤ free_offset m page) × (size + 12 ≤ free_space m page)
unfolding lacks_space
lacks_space_not m page size e room top small = ground arith

module _ (bson : Bson) (f : DmsFile) (valid : IsFile f) (o : bson.Obj) (p : ℕ)
    (small : bson.objsize o ≤ max_record) (bound : p < num_pages f) where
  abbrev page : ℕ
  page = page_address f.body p

  abbrev size : ℕ
  size = bson.objsize o

  file-IsPage : IsPage f.mem page
  file-IsPage = valid.pages p bound

  top : free_offset f.mem page ≤ page_size
  top =
      Stacked-le f.mem page (free_offset f.mem page) 0 (num_slots f.mem page) page_size false
        file-IsPage.stacked

  abbrev recovered : Mem
  recovered = recover_space f.mem page

  recovered_outside : (x : ℕ) → (x < page) ⊎ (page + page_size ≤ x) → recovered x ≡ f.mem x
  recovered_outside x h =
      recover_space_frame f.mem page file-IsPage x (omega (arith, file-IsPage.room, top))
        (omega (arith, file-IsPage.room, file-IsPage.slots_end))

  recovered-Outcome : Outcome bson f o (returns sys (record f { mem = recovered }) none)
  recovered-Outcome =
      let r = recover_space-IsPage f.mem page file-IsPage in
      (
        refl,
        keep-IsFile f valid recovered p bound recovered_outside r.0
            (recover_space_header f.mem page file-IsPage 20 (omega arith)),
        keep f valid recovered p bound recovered_outside
            (omega (arith, recover_space_header f.mem page file-IsPage 12 (omega arith))) r.1
            f.free_space_map,
        refl,
        refl,
      )

  module _ (fits : slot_offset f.mem page + (size + 12) ≤ free_offset f.mem page)
      (spare : size + 12 ≤ free_space f.mem page) where
    abbrev new : ℕ
    new = free_space f.mem page - (size + 12)

    abbrev placed : Mem
    placed = place f.mem page size (bson.objdata o)

    abbrev pub inserted : Mem
    inserted = store32 placed (page + 20) new

    pub added : Inserted f.mem inserted page size (bson.objdata o)
    added =
        insert-Inserted f.mem page size (bson.objdata o) (bson.length-objdata o)
          file-IsPage.slots_end top fits new (omega arith) (omega (arith, file-IsPage.space))

    inserted_outside : (x : ℕ) → (x < page) ⊎ (page + page_size ≤ x) → inserted x ≡ f.mem x
    inserted_outside x h =
        added.frame x (omega arith) (omega (arith, file-IsPage.slots_end, top))
          (omega (arith, file-IsPage.slots_end, top))

    abbrev pub new_rid : RecordId
    new_rid = record { page_id = p; slot_id = num_slots f.mem page }

    abbrev pub grown : DmsFile
    grown = record f {
      mem = inserted;
      free_space_map = insert new p (erase (free_space f.mem page) p f.free_space_map);
    }

    pub grown-StoredAt : StoredAt grown new_rid (bson.objdata o)
    grown-StoredAt = record {
      page_bound = bound;
      slot_bound = omega (arith, added.slots);
      stored = added.stored;
    }

    pub grown-Outcome : Outcome bson f o (returns ok grown (some (new_rid, o)))
    grown-Outcome = (
      refl,
      subst
          (λ k. IsFile (record f {
            mem = inserted;
            free_space_map = insert k p (erase (free_space f.mem page) p f.free_space_map);
          }))
          (omega (arith, added.space))
          (change-IsFile f valid inserted p bound inserted_outside
            (Inserted-IsPage added file-IsPage)),
      keep f valid inserted p bound inserted_outside (omega (arith, added.slots))
          (Inserted-Stored added file-IsPage) grown.free_space_map,
      refl,
      refl,
      grown-StoredAt,
      find-StoredAt bson grown new_rid o grown-StoredAt,
      refl,
      λ bytes s. omega (arith, s.slot_bound),
    )

    out_value : bson.obj_at inserted (page + record_offset f.mem page size + 8) ≡ o
    out_value =
        let e : record_offset f.mem page size ≡ slot_at inserted page (num_slots f.mem page) =
          omega (arith, added.at_bottom, added.free, top) in
        bson.obj_at-objdata inserted (page + record_offset f.mem page size + 8) o
          (subst (λ k. Holds inserted (page + k + 8) (bson.objdata o)) (sym e) added.stored.holds)

    pub insert_into-added :
        needs_recovery f.mem page size ≡ false
        → insert_into bson f p page o ≡ returns ok grown (some (new_rid, o))
    unfolding insert_into update_free_space lacks_space
    insert_into-added calm =
        let w =
          placed_words f.mem page size (bson.objdata o) (bson.length-objdata o)
            file-IsPage.slots_end top fits new (omega arith) (omega (arith, file-IsPage.space)) in
        let e : add32 (free_space f.mem page) (sub32 0 (full_size size)) ≡ new =
          omega (arith, file-IsPage.space) in
        let roomy : lacks_space f.mem page size ≡ false = ground (arith, file-IsPage.space, top) in
        rw (calm, file-IsPage.eye_catcher, roomy, w.0, w.1, e, insert_into)
          (ap (λ out. returns ok grown (some (new_rid, out))) out_value)

  full-Outcome :
      needs_recovery f.mem page size ≡ false
      → lacks_space f.mem page size ≡ true
      → Outcome bson f o (insert_into bson f p page o)
  unfolding insert_into
  full-Outcome calm full =
      rw (calm, file-IsPage.eye_catcher, full, insert_into)
        (refl, valid, λ rid bytes s. s, refl, refl)

  hopeless-Outcome :
      needs_recovery f.mem page size ≡ true → Outcome bson f o (insert_into bson f p page o)
  unfolding insert_into
  hopeless-Outcome needs =
      rw
        (
          needs,
          file-IsPage.eye_catcher,
          recover_space_in_vain f.mem page file-IsPage size small needs,
          insert_into,
        )
        recovered-Outcome

  pub insert_into-Outcome : Outcome bson f o (insert_into bson f p page o)
  insert_into-Outcome = elim (Bool-cases (needs_recovery f.mem page size)) [
    | inl needs ↦ hopeless-Outcome needs
    | inr calm ↦ elim (Bool-cases (lacks_space f.mem page size)) [
      | inl full ↦ full-Outcome calm full
      | inr roomy ↦
          let r = lacks_space_not f.mem page size roomy file-IsPage.room top small in
          subst (Outcome bson f o) (sym (insert_into-added r.0 r.1 calm)) (grown-Outcome r.0 r.1)
    ]
  ]
