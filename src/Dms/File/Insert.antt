-- ===== src/Dms/File/Insert.antt =====
-- `insert` of dms/dms.cpp, one pass through its critical section.
use emeralddb_src.Base.{
  ℕ, zero, suc, ◌+◌, ◌≤◌, ◌<◌, ◌≡◌, refl, subst, ◌≢◌, inl, inr, Bool, true, false, arith, none,
  some, Option-cases,
}
use emeralddb_src.Core.{ok}
use emeralddb_src.Bson.{Bson}
use emeralddb_src.Memory.{Mem}
use emeralddb_src.Dms.Layout.{
  page_size, num_slots, slot_at, free_space, free_offset, slot_offset, max_record,
}
use emeralddb_src.Dms.Page.{needs_recovery}
use emeralddb_src.Dms.Page.Invariant.{Stacked, live_bytes, next_top, next_hole}
use emeralddb_src.Dms.Page.Stack.{Stacked-head}
use emeralddb_src.Dms.Page.Insert.{}
use emeralddb_src.Dms.FreeSpace.{upper_bound}
use emeralddb_src.Dms.FreeSpace.Index.{upper_bound-some, upper_bound-none}
use emeralddb_src.Dms.File.{DmsFile, Attempt, no_page, returns, num_pages, find_page, insert_once}
use emeralddb_src.Dms.File.Invariant.{IsFile, page_address, space_of, page_to_offset-some}
use emeralddb_src.Dms.File.Added.{Outcome, insert_into-Outcome, insert_into-added}

-- On a well-formed file and for an object of at most the maximum size, one pass of `insert` comes to one of
-- three ends. It finds no page, and then no page has more free space than the record with its header. Or
-- it returns EDB_SYS with a well-formed file that stores all it stored. Or it returns EDB_OK with a new
-- record id and a well-formed file that stores all it stored, and the object stored and found under that id.
pub insert_once-Outcome :
    (bson : Bson) (f : DmsFile) (o : bson.Obj)
    → IsFile f
    → bson.objsize o ≤ max_record
    → Outcome bson f o (insert_once bson f o)
unfolding insert_once find_page
insert_once-Outcome bson f o valid small =
    elim (Option-cases (upper_bound (bson.objsize o + 8) f.free_space_map)) [
      | inl e ↦
          rw (e, insert_once, find_page)
            λ p h.
              upper_bound-none (space_of f.mem f.body) (num_pages f) (bson.objsize o + 8) p
                f.free_space_map valid.index.sound e (omega (arith, valid.index.once p h))
      | inr ((s, p), e) ↦
          let u =
            upper_bound-some (space_of f.mem f.body) (num_pages f) (bson.objsize o + 8) s p
              f.free_space_map valid.index.sound e in
          rw (e, insert_once, find_page)
            (rw (page_to_offset-some f p u.1, insert_once)
              (insert_into-Outcome bson f valid o p small u.1))
    ]

-- The live records of a page take no more than the part above its free space.
live_bytes-le :
    (m : Mem) (page bottom i left top : ℕ) (hole : Bool)
    → Stacked m page bottom i left top hole
    → live_bytes m page i left + bottom ≤ top
live_bytes-le m page bottom i zero top true h = omega (arith, h)
live_bytes-le m page bottom i zero top false h = omega arith
live_bytes-le m page bottom i (suc left) top hole h =
    let head = Stacked-head m page bottom i left top hole h in
    ground (
      arith,
      head,
      live_bytes-le m page bottom (i + 1) left (next_top (slot_at m page i) top)
          (next_hole (slot_at m page i) hole) h.1,
    )

find_page_found :
    (f : DmsFile) (r p : ℕ)
    → IsFile f
    → find_page f r ≡ some p
    → (p < num_pages f) × (r < space_of f.mem f.body p)
unfolding find_page
find_page_found f r p valid e = elim (Option-cases (upper_bound r f.free_space_map)) [
  | inl z ↦ let k : find_page f r ≡ none = rw (z, find_page) refl in cc
  | inr ((s, q), z) ↦
      let k : find_page f r ≡ some q = rw (z, find_page) refl in
      let same : q ≡ p = cc in
      let u =
        upper_bound-some (space_of f.mem f.body) (num_pages f) r s q f.free_space_map
          valid.index.sound z in
      subst (λ x. (x < num_pages f) × (r < space_of f.mem f.body x)) same
        (u.1, omega (arith, u.0, u.2))
]

needs_recovery_not :
    (m : Mem) (page size : ℕ)
    → free_offset m page ≤ page_size
    → slot_offset m page + (size + 12) ≤ free_offset m page
    → needs_recovery m page size ≡ false
unfolding needs_recovery
needs_recovery_not m page size top room = ground arith

abbrev pub IsStored : {O : Type 0} → Attempt O → Type 0
IsStored no_page = ⊥
IsStored (returns rc g out) = (rc ≡ ok) × (out ≢ none)

-- On a well-formed file, a pass of `insert` whose page has the room for the record and its slot between
-- its slots and its records returns EDB_OK.
pub insert_once-IsStored :
    (bson : Bson) (f : DmsFile) (o : bson.Obj) (p : ℕ)
    → IsFile f
    → find_page f (bson.objsize o + 8) ≡ some p
    → slot_offset f.mem (page_address f.body p) + (bson.objsize o + 12)
      ≤ free_offset f.mem (page_address f.body p)
    → IsStored (insert_once bson f o)
unfolding insert_once
insert_once-IsStored bson f o p valid found room =
    let b = find_page_found f (bson.objsize o + 8) p valid found in
    let page = page_address f.body p in
    let v = valid.pages p b.0 in
    let stack = v.stacked in
    let live =
      live_bytes-le f.mem page (free_offset f.mem page) 0 (num_slots f.mem page) page_size false
        stack in
    let small : bson.objsize o ≤ max_record = omega (arith, v.slots_end, live) in
    let spare : bson.objsize o + 12 ≤ free_space f.mem page = omega (arith, v.space, live) in
    let calm : needs_recovery f.mem page (bson.objsize o) ≡ false =
      needs_recovery_not f.mem page (bson.objsize o) (omega (arith, live)) room in
    rw (found, insert_once)
      (rw
        (page_to_offset-some f p b.0, insert_into-added bson f valid o p small b.0 room spare calm)
        (refl, λ e. cc))
