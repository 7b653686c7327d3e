-- ===== src/Dms/File/Remove.antt =====
-- `remove` of dms/dms.cpp on a file.
use emeralddb_src.Base.{
  ℕ, ◌+◌, ◌≤◌, ◌<◌, ◌≡◌, refl, ap, subst, sym, ◌∙◌, ◌≢◌, ◌⊎◌, inl, inr, false, List, arith, ◌==◌,
  none, some, Bool-cases,
}
use emeralddb_src.Core.{ok, sys}
use emeralddb_src.Bson.{Bson}
use emeralddb_src.Memory.{Mem, store32, add32}
use emeralddb_src.Dms.Layout.{
  RecordId, page_size, num_slots, slot_at, slot_empty, free_space, record_size,
}
use emeralddb_src.Dms.Page.{search_slot, drop_record}
use emeralddb_src.Dms.Page.Invariant.{IsPage, Stored}
use emeralddb_src.Dms.Page.Drop.{Removed, remove-Removed, dropped_words, place_of}
use emeralddb_src.Dms.Page.Remove.{Removed-IsPage, Removed-Stored}
use emeralddb_src.Dms.FreeSpace.{insert, erase}
use emeralddb_src.Dms.File.{DmsFile, find, remove, update_free_space}
use emeralddb_src.Dms.File.Invariant.{IsFile, StoredAt, page_address, page_to_offset-some}
use emeralddb_src.Dms.File.Change.{change-IsFile, change-StoredAt}
use emeralddb_src.Dms.File.Find.{find_gone}

-- Two record ids differ.
abbrev pub Differ : RecordId → RecordId → Type 0
Differ a b = (a.page_id ≢ b.page_id) ⊎ (a.slot_id ≢ b.slot_id)

module _ (f : DmsFile) (rid : RecordId) (bytes : List ℕ) (valid : IsFile f)
    (s : StoredAt f rid bytes) where
  abbrev page : ℕ
  page = page_address f.body rid.page_id

  abbrev slot : ℕ
  slot = slot_at f.mem page rid.slot_id

  abbrev new : ℕ
  new = add32 (free_space f.mem page) (record_size f.mem page slot)

  abbrev mem' : Mem
  mem' = store32 (drop_record f.mem page rid.slot_id slot) (page + 20) new

  abbrev file' : DmsFile
  file' = record f {
    mem = mem';
    free_space_map =
        insert new rid.page_id (erase (free_space f.mem page) rid.page_id f.free_space_map);
  }

  file-IsPage : IsPage f.mem page
  file-IsPage = valid.pages rid.page_id s.page_bound

  grown : new ≡ free_space f.mem page + record_size f.mem page slot
  grown =
      let t = place_of f.mem page rid.slot_id file-IsPage s.slot_bound s.stored.live in
      omega (arith, file-IsPage.space, t.under)

  removed : Removed f.mem mem' page rid.slot_id
  removed =
      remove-Removed f.mem page rid.slot_id file-IsPage s.slot_bound s.stored.live new grown
        (omega arith)

  searched : search_slot f.mem (some page) rid ≡ (ok, slot)
  unfolding search_slot
  searched = ground (arith, s.slot_bound)

  remove_value : remove f rid ≡ (ok, file')
  unfolding remove update_free_space
  remove_value =
      let w = dropped_words f.mem page rid.slot_id file-IsPage s.slot_bound s.stored.live in
      let live : (slot == slot_empty) ≡ false = ground (arith, s.stored.live) in
      rw (page_to_offset-some f rid.page_id s.page_bound, remove, searched, live) (rw (w.0, w.1))

  outside : (x : ℕ) → (x < page) ⊎ (page + page_size ≤ x) → mem' x ≡ f.mem x
  outside x h =
      let t = place_of f.mem page rid.slot_id file-IsPage s.slot_bound s.stored.live in
      removed.frame x (omega arith)
        (omega (arith, file-IsPage.slots_end, file-IsPage.room, t.above, t.under, s.slot_bound))
        (omega (arith, t.under, t.header))

  file'-IsFile : IsFile file'
  file'-IsFile =
      subst
        (λ k. IsFile (record f {
          mem = mem';
          free_space_map =
              insert k rid.page_id (erase (free_space f.mem page) rid.page_id f.free_space_map);
        }))
        (removed.space ∙ sym grown)
        (change-IsFile f valid mem' rid.page_id s.page_bound outside
          (Removed-IsPage removed file-IsPage s.slot_bound s.stored.live))

  others :
      (rid' : RecordId) (bytes' : List ℕ)
      → Differ rid' rid
      → StoredAt f rid' bytes'
      → StoredAt file' rid' bytes'
  others rid' bytes' d t = elim (Bool-cases (rid'.page_id == rid.page_id)) [
    | inl same ↦
        let e : page_address f.body rid'.page_id ≡ page = ap (page_address f.body) (ground arith) in
        let ne : rid'.slot_id ≢ rid.slot_id = ground (arith, d) in
        let h = subst (λ p. rid'.slot_id < num_slots f.mem p) e t.slot_bound in
        let kept =
          Removed-Stored removed file-IsPage s.slot_bound s.stored.live rid'.slot_id bytes' h ne
            (subst (λ p. Stored f.mem p rid'.slot_id bytes') e t.stored) in
        let bound : rid'.slot_id < num_slots mem' page = omega (arith, removed.slots, h) in
        record {
          page_bound = t.page_bound;
          slot_bound = subst (λ p. rid'.slot_id < num_slots mem' p) (sym e) bound;
          stored = subst (λ p. Stored mem' p rid'.slot_id bytes') (sym e) kept;
        }
    | inr other ↦
        change-StoredAt f valid mem' rid.page_id s.page_bound outside file'.free_space_map rid'
          bytes' (ground arith) t
  ]

-- What a removal promises: the record is gone, and the file and its other records are as before.
pub record Deleted (bson : Bson) (f g : DmsFile) (rid : RecordId) : Type 0 where
  pub is_file : IsFile g
  pub not_found : find bson g rid ≡ (sys, none)
  pub others :
      (rid' : RecordId) (bytes : List ℕ)
      → Differ rid' rid
      → StoredAt f rid' bytes
      → StoredAt g rid' bytes
  pub size : g.file_size ≡ f.file_size

-- On a well-formed file, `remove` of a stored record returns EDB_OK and leaves a well-formed file of
-- the same length in which `find` of that record id reports EDB_SYS, and in which every object stored
-- under another record id is still stored there.
pub remove-Deleted :
    (bson : Bson) (f : DmsFile) (rid : RecordId) (bytes : List ℕ)
    → IsFile f
    → StoredAt f rid bytes
    → ((remove f rid).0 ≡ ok) × Deleted bson f (remove f rid).1 rid
remove-Deleted bson f rid bytes valid s =
    let e = remove_value f rid bytes valid s in
    let r = removed f rid bytes valid s in
    (
      ap (λ x. x.0) e,
      subst (λ x. Deleted bson f x.1 rid) (sym e)
          (record {
            is_file = file'-IsFile f rid bytes valid s;
            not_found =
                find_gone bson (file' f rid bytes valid s) rid s.page_bound
                  (omega (arith, r.slots, s.slot_bound)) r.gone;
            others = others f rid bytes valid s;
            size = refl;
          }),
    )
